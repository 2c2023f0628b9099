-- ===== src/Ann/Search/Progress.antt =====
-- What the search keeps from one visited slot to the next.
use lumenvec.Base.{
  ℕ, ◌+◌, ◌≤◌, ◌<◌, ◌≡◌, refl, ap, ◌∙◌, sym, inl, inr, Bool, true, false, not, List, some, length,
  ltb, leb, nat_eq, arith, All, Bool-cases, if◌then◌else◌,
}
use lumenvec.Base.Arrays.{get_elem-some, count, count-set, length-set}
use lumenvec.Numeric.{Floats}
use lumenvec.Distance.{Arithmetic}
use lumenvec.Ann.{DistancePair, Node, distance_to, lt64}
use lumenvec.Ann.Heaps.{min_first, max_first, push, replace_top}
use lumenvec.Ann.Heaps.Laws.{push-Pushed, replace_top-All, length-replace_top, count-replace_top}
use lumenvec.Ann.Workspace.{Workspace, mark_visited}
use lumenvec.Ann.Workspace.Epochs.{IsUsed, seen, seen_mark, seen-mark, mark-IsUsed}
use lumenvec.Ann.Search.{Searching, admit}

-- How many slots are still to be visited.
abbrev pub unseen : Workspace → ℕ
unseen w = count (λ mark. not (nat_eq mark w.epoch)) w.marks

pub mark-unseen :
    (w : Workspace) (slot : ℕ)
    → slot < length w.marks
    → seen w slot ≡ false
    → unseen (mark_visited slot w) + 1 ≡ unseen w
unfolding mark_visited
mark-unseen w slot h new =
    let (old, at) = get_elem-some w.marks slot h in
    let other : nat_eq old w.epoch ≡ false = ap (seen_mark w.epoch) (sym at) ∙ new in
    ground (arith, other, count-set (λ mark. not (nat_eq mark w.epoch)) w.marks slot old w.epoch at)

abbrev pub holds : {D : Type 0} → ℕ → DistancePair D → Bool
holds v c = nat_eq v c.id

abbrev pub one_if : Bool → ℕ
one_if b = if b then 1 else 0

module _ (fl : Floats) (ar : Arithmetic fl) (nodes : List (Node fl.F32)) (query : List fl.F32)
    (ef : ℕ) where
  open fl use {F64}

  abbrev pub Right : DistancePair F64 → Type 0
  Right c = distance_to fl ar nodes query c.id ≡ some c.distance

  -- The state between two visits: a mark for each node; each heap has a slot at most once, only
  -- visited ones, and under their distances; maxQ has at most `ef`.
  pub record Explored (s : Searching F64) : Type 0 where
    pub used : IsUsed (length nodes) s.ws
    pub size : length s.ws.marks ≡ length nodes
    pub best : (v : ℕ) → count (holds v) s.max_q ≤ one_if (seen s.ws v)
    pub waiting : (v : ℕ) → count (holds v) s.min_q ≤ one_if (seen s.ws v)
    pub best_right : All Right s.max_q
    pub waiting_right : All Right s.min_q
    pub room : length s.max_q ≤ ef
    pub inhabited : 0 < length s.max_q
    pub tally : length s.max_q + unseen s.ws ≤ length nodes

  -- Each visited slot is still among the best.
  abbrev pub AllHeld : Searching F64 → Type 0
  AllHeld s = (v : ℕ) → seen s.ws v ≡ true → 1 ≤ count (holds v) s.max_q

  abbrev pub work : Searching F64 → ℕ
  work s = unseen s.ws + length s.min_q

  -- From `s` to `s'` some slots were visited; those that are new wait in minQ, and all visited
  -- slots are held, where maxQ has room for every node.
  pub record Visited (s s' : Searching F64) : Type 0 where
    pub explored : Explored s'
    pub less : work s' ≤ work s
    pub marked : (v : ℕ) → seen s.ws v ≡ true → seen s'.ws v ≡ true
    pub kept : (v : ℕ) → count (holds v) s.min_q ≤ count (holds v) s'.min_q
    pub queued :
        length nodes ≤ ef
        → (v : ℕ) → seen s'.ws v ≡ true
        → seen s.ws v ≡ false
        → 1 ≤ count (holds v) s'.min_q
    pub held : length nodes ≤ ef → AllHeld s → AllHeld s'

  pub Visited-refl : (s : Searching F64) → Explored s → Visited s s
  Visited-refl s h = record {
    explored = h;
    less = omega arith;
    marked = λ v e. e;
    kept = λ v. omega arith;
    queued = λ wide v now before. absurd (ground arith);
    held = λ wide all. all;
  }

  pub Visited-trans : {s t u : Searching F64} → Visited s t → Visited t u → Visited s u
  Visited-trans {s} {t} {u} h k = record {
    explored = k.explored;
    less = omega (arith, h.less, k.less);
    marked = λ v e. k.marked v (h.marked v e);
    kept = λ v. omega (arith, h.kept v, k.kept v);
    queued = λ wide v now before. elim (Bool-cases (seen t.ws v)) [
      | inl early ↦ omega (arith, h.queued wide v early before, k.kept v)
      | inr late ↦ k.queued wide v now late
    ];
    held = λ wide all. k.held wide (h.held wide all);
  }

  module _ (s : Searching F64) (slot : ℕ) (dist : F64) (h : Explored s)
      (inside : slot < length nodes) (new : seen s.ws slot ≡ false)
      (right : distance_to fl ar nodes query slot ≡ some dist) where
    abbrev pair : DistancePair F64
    pair = record { id = slot; distance = dist }

    abbrev marked : Searching F64
    marked = record s { ws = mark_visited slot s.ws }

    abbrev both_pushed : Searching F64
    both_pushed = record marked {
      min_q = push (min_first fl ar) pair s.min_q;
      max_q = push (max_first fl ar) pair s.max_q;
    }

    both_pushed-Visited : length s.max_q < ef → Visited s both_pushed
    unfolding mark_visited
    both_pushed-Visited room =
        let in_marks : slot < length s.ws.marks = omega (arith, h.size) in
        let low = push-Pushed (min_first fl ar) pair s.min_q in
        let high = push-Pushed (max_first fl ar) pair s.max_q in
        let fewer = mark-unseen s.ws slot in_marks new in
        record {
          explored = record {
            used = mark-IsUsed (length nodes) slot s.ws h.used;
            size = length-set s.ws.marks slot s.ws.epoch ∙ h.size;
            best =
                λ v. ground (arith, high.bag (holds v), seen-mark s.ws slot v in_marks, h.best v);
            waiting =
                λ v. ground (arith, low.bag (holds v), seen-mark s.ws slot v in_marks, h.waiting v);
            best_right = high.all Right h.best_right right;
            waiting_right = low.all Right h.waiting_right right;
            room = omega (arith, high.size);
            inhabited = omega (arith, high.size);
            tally = omega (arith, high.size, fewer, h.tally);
          };
          less = omega (arith, low.size, fewer);
          marked = λ v e. ground (arith, seen-mark s.ws slot v in_marks);
          kept = λ v. omega (arith, low.bag (holds v));
          queued = λ wide v now before.
              ground (arith, low.bag (holds v), seen-mark s.ws slot v in_marks);
          held = λ wide all v e.
              ground (arith, high.bag (holds v), seen-mark s.ws slot v in_marks, all v);
        }

    abbrev replaced : Searching F64
    replaced = record marked {
      min_q = push (min_first fl ar) pair s.min_q;
      max_q = replace_top (max_first fl ar) pair s.max_q;
    }

    -- Where maxQ is full, it has no room for every node.
    narrow : leb ef (length s.max_q) ≡ true → length nodes ≤ ef → ⊥
    narrow full wide =
        let in_marks : slot < length s.ws.marks = omega (arith, h.size) in
        ground (arith, mark-unseen s.ws slot in_marks new, h.tally)

    replaced-Visited : leb ef (length s.max_q) ≡ true → Visited s replaced
    unfolding mark_visited
    replaced-Visited full =
        let in_marks : slot < length s.ws.marks = omega (arith, h.size) in
        let low = push-Pushed (min_first fl ar) pair s.min_q in
        let size = length-replace_top (max_first fl ar) pair s.max_q in
        let fewer = mark-unseen s.ws slot in_marks new in
        record {
          explored = record {
            used = mark-IsUsed (length nodes) slot s.ws h.used;
            size = length-set s.ws.marks slot s.ws.epoch ∙ h.size;
            best = λ v. ground (
              arith,
              count-replace_top (max_first fl ar) pair s.max_q (holds v),
              seen-mark s.ws slot v in_marks,
              h.best v,
            );
            waiting =
                λ v. ground (arith, low.bag (holds v), seen-mark s.ws slot v in_marks, h.waiting v);
            best_right = replace_top-All (max_first fl ar) pair s.max_q Right h.best_right right;
            waiting_right = low.all Right h.waiting_right right;
            room = omega (arith, size, h.room);
            inhabited = omega (arith, size, h.inhabited);
            tally = omega (arith, size, fewer, h.tally);
          };
          less = omega (arith, low.size, fewer);
          marked = λ v e. ground (arith, seen-mark s.ws slot v in_marks);
          kept = λ v. omega (arith, low.bag (holds v));
          queued = λ wide v now before. absurd (narrow full wide);
          held = λ wide all v e. absurd (narrow full wide);
        }

    marked-Visited : leb ef (length s.max_q) ≡ true → Visited s marked
    unfolding mark_visited
    marked-Visited full =
        let in_marks : slot < length s.ws.marks = omega (arith, h.size) in
        let fewer = mark-unseen s.ws slot in_marks new in
        record {
          explored = record {
            used = mark-IsUsed (length nodes) slot s.ws h.used;
            size = length-set s.ws.marks slot s.ws.epoch ∙ h.size;
            best = λ v. ground (arith, seen-mark s.ws slot v in_marks, h.best v);
            waiting = λ v. ground (arith, seen-mark s.ws slot v in_marks, h.waiting v);
            best_right = h.best_right;
            waiting_right = h.waiting_right;
            room = h.room;
            inhabited = h.inhabited;
            tally = omega (arith, fewer, h.tally);
          };
          less = omega (arith, fewer);
          marked = λ v e. ground (arith, seen-mark s.ws slot v in_marks);
          kept = λ v. omega arith;
          queued = λ wide v now before. absurd (narrow full wide);
          held = λ wide all v e. absurd (narrow full wide);
        }

    pub admit-Visited :
        (s' : Searching F64) × (admit fl ar ef pair marked ≡ some s')
        × Visited s s'
        × (seen s'.ws slot ≡ true)
    unfolding admit mark_visited
    admit-Visited =
        let in_marks : slot < length s.ws.marks = omega (arith, h.size) in
        let now : seen (mark_visited slot s.ws) slot ≡ true =
          ground (arith, seen-mark s.ws slot slot in_marks) in
        elim (Bool-cases (ltb (length s.max_q) ef)) [
          | inl room ↦ (both_pushed, rw (room, admit) refl, both_pushed-Visited (ground arith), now)
          | inr none_left ↦
              let full : leb ef (length s.max_q) ≡ true = ground arith in
              let (worst, top) = get_elem-some s.max_q 0 h.inhabited in
              elim (Bool-cases (lt64 fl ar dist worst.distance)) [
                | inl nearer ↦
                    (replaced, rw (none_left, admit, top, nearer) refl, replaced-Visited full, now)
                | inr farther ↦
                    (marked, rw (none_left, admit, top, farther) refl, marked-Visited full, now)
              ]
        ]
