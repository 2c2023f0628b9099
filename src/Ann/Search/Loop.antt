-- ===== src/Ann/Search/Loop.antt =====
-- The search ends without a panic, and follows every link where it may keep all nodes.
use lumenvec.Base.{
  ℕ, zero, suc, ◌≤◌, ◌<◌, ◌≡◌, refl, ap, ◌∙◌, sym, ◌⊎◌, inl, inr, Bool, true, false, List, [], ◌∷◌,
  some, length, leb, nat_eq, arith, Bool-cases, Option-cases, nat_eq_iff,
}
use lumenvec.Base.Arrays.{get_elem?, get_elem-some, count}
use lumenvec.Numeric.{Floats}
use lumenvec.Distance.{Arithmetic}
use lumenvec.Ann.{DistancePair, Node, distance_to}
use lumenvec.Ann.Heaps.{min_first}
use lumenvec.Ann.Heaps.Laws.{Popped, pop-Popped}
use lumenvec.Ann.Workspace.Epochs.{seen}
use lumenvec.Ann.Search.{Searching, is_beyond, search_loop}
use lumenvec.Ann.Search.Progress.{Explored, Visited, AllHeld, Right, work, unseen, holds}
use lumenvec.Ann.Search.Visits.{IsSound, expand-Visited}

module _ {A : Type 0} where
  count-none : (p : A → Bool) (xs : List A) → length xs ≡ 0 → count p xs ≡ 0
  count-none p [] h = refl
  count-none p (x ∷ xs) h = absurd (omega arith)

  pub count-le-length : (p : A → Bool) (xs : List A) → count p xs ≤ length xs
  count-le-length p [] = omega arith
  count-le-length p (x ∷ xs) = ground (arith, count-le-length p xs)

pub none_counted :
    (p : ℕ → Bool) (v : ℕ) (xs : List ℕ) → count p xs ≡ 0 → 1 ≤ count (nat_eq v) xs → p v ≡ false
none_counted p v [] h k = absurd (omega arith)
none_counted p v (x ∷ xs) h k = elim (Bool-cases (nat_eq v x)) [
  | inl same ↦ rw ((nat_eq_iff v x).0 same) (ground arith)
  | inr other ↦ none_counted p v xs (ground arith) (ground arith)
]

all_seen :
    (epoch : ℕ) (marks : List ℕ) (slot : ℕ)
    → unseen (record { marks = marks; epoch = epoch }) ≡ 0
    → slot < length marks
    → seen (record { marks = marks; epoch = epoch }) slot ≡ true
all_seen epoch [] slot h k = absurd (omega arith)
all_seen epoch (m ∷ marks) zero h k = ground arith
all_seen epoch (m ∷ marks) (suc slot) h k = all_seen epoch marks slot (ground arith) (omega arith)

module _ (fl : Floats) (ar : Arithmetic fl) (nodes : List (Node fl.F32)) (query : List fl.F32)
    (ef : ℕ) where
  open fl use {F64}

  -- A link from one slot to another.
  pub record Link (u v : ℕ) : Type 0 where
    pub node : Node fl.F32
    pub at : get_elem? nodes u ≡ some node
    pub linked : 1 ≤ count (nat_eq v) node.neighbors

  -- Links lead from visited slots to visited slots, but from those that wait in minQ.
  abbrev pub Frontier : Searching F64 → Type 0
  Frontier s =
      (u v : ℕ)
      → Link u v
      → seen s.ws u ≡ true
      → (seen s.ws v ≡ true) ⊎ (1 ≤ count (holds u) s.min_q)

  abbrev pub Closed : Searching F64 → Type 0
  Closed s = (u v : ℕ) → Link u v → seen s.ws u ≡ true → seen s.ws v ≡ true

  pub record Ended (s s' : Searching F64) : Type 0 where
    pub explored : Explored fl ar nodes query ef s'
    pub marked : (v : ℕ) → seen s.ws v ≡ true → seen s'.ws v ≡ true
    pub held : length nodes ≤ ef → AllHeld fl ar nodes query ef s → AllHeld fl ar nodes query ef s'
    pub closed : length nodes ≤ ef → Frontier s → Closed s'

  pub right-node :
      (slot : ℕ) (d : F64)
      → distance_to fl ar nodes query slot ≡ some d
      → (n : Node fl.F32) × (get_elem? nodes slot ≡ some n)
  unfolding distance_to
  right-node slot d right = elim (Option-cases (get_elem? nodes slot)) [
    | inl out ↦ absurd (ground arith)
    | inr (n, at) ↦ (n, at)
  ]

  module _ (s : Searching F64) (current : DistancePair F64) (rest : List (DistancePair F64))
      (sound : IsSound fl ar nodes query ef) (h : Explored fl ar nodes query ef s)
      (popped : Popped (min_first fl ar) current s.min_q rest) where
    abbrev taken : Searching F64
    taken = record s { min_q = rest }

    taken-Explored : Explored fl ar nodes query ef taken
    taken-Explored = record {
      used = h.used;
      size = h.size;
      best = h.best;
      waiting = λ v. omega (arith, popped.bag (holds v), h.waiting v);
      best_right = h.best_right;
      waiting_right = (popped.all (Right fl ar nodes query ef) h.waiting_right).1;
      room = h.room;
      inhabited = h.inhabited;
      tally = h.tally;
    }

    -- The search may stop early only where every slot has been visited, if maxQ can hold them all.
    over-Ended : leb ef (length s.max_q) ≡ true → Ended s taken
    over-Ended full = record {
      explored = taken-Explored;
      marked = λ v e. e;
      held = λ wide all. all;
      closed = λ wide front u v link e.
          let inside : leb (length nodes) v ≡ false =
            none_counted (leb (length nodes)) v link.node.neighbors
              (sound.links u link.node link.at) link.linked in
          all_seen s.ws.epoch s.ws.marks v (ground (arith, h.tally)) (ground (arith, h.size));
    }

    round-Ended :
        (t u : Searching F64) (n : Node fl.F32)
        → get_elem? nodes current.id ≡ some n
        → Visited fl ar nodes query ef taken t
        → ((v : ℕ) → 1 ≤ count (nat_eq v) n.neighbors → seen t.ws v ≡ true)
        → Ended t u
        → Ended s u
    round-Ended t u n at step all last = record {
      explored = last.explored;
      marked = λ v e. last.marked v (step.marked v e);
      held = λ wide before. last.held wide (step.held wide before);
      closed = λ wide front. last.closed wide (λ x v link e. elim (Bool-cases (seen s.ws x)) [
        | inr new ↦ inr (step.queued wide x e new)
        | inl old ↦ elim (front x v link old) [
          | inl done ↦ inl (step.marked v done)
          | inr waits ↦ elim (Bool-cases (nat_eq x current.id)) [
            | inr other ↦ inr (ground (arith, popped.bag (holds x), step.kept x))
            | inl same ↦
                let here : some n ≡ some link.node =
                  sym at
                  ∙ ap (get_elem? nodes) (sym ((nat_eq_iff x current.id).0 same))
                  ∙ link.at in
                inl (all v (ground (arith, here, link.linked)))
          ]
        ]
      ]);
    }

  pub search_loop-Ended :
      (fuel : ℕ) (s : Searching F64)
      → IsSound fl ar nodes query ef
      → work fl ar nodes query ef s < fuel
      → Explored fl ar nodes query ef s
      → (s' : Searching F64) × (search_loop fl ar nodes query ef fuel s ≡ some s') × Ended s s'
  unfolding search_loop
  search_loop-Ended zero s sound enough h = absurd (omega arith)
  search_loop-Ended (suc fuel) s sound enough h = elim (pop-Popped (min_first fl ar) s.min_q) [
    | inl (empty, none_left) ↦ (
      s,
      rw (none_left, search_loop) refl,
      record {
        explored = h;
        marked = λ v e. e;
        held = λ wide all. all;
        closed = λ wide front u v link e. elim (front u v link e) [
          | inl done ↦ done
          | inr waits ↦ absurd (omega (arith, count-none (holds u) s.min_q empty))
        ];
      },
    )
    | inr (current, rest, same, popped) ↦
        let (worst, top) = get_elem-some s.max_q 0 h.inhabited in
        let after = taken-Explored s current rest sound h popped in
        elim (Bool-cases (is_beyond fl ar nodes query ef current worst s)) [
          | inl over ↦ (
            taken s current rest sound h popped,
            rw (same, search_loop, top, over) refl,
            over-Ended s current rest sound h popped (ground arith),
          )
          | inr on ↦
              let right = (popped.all (Right fl ar nodes query ef) h.waiting_right).0 in
              let (n, at) = right-node current.id current.distance right in
              let (t, expanded, step, all) =
                expand-Visited fl ar nodes query ef (taken s current rest sound h popped) current.id
                  n sound at after in
              let (u, looped, last) =
                search_loop-Ended fuel t sound (omega (arith, step.less, popped.size))
                  step.explored in
              (
                u,
                rw (same, search_loop, top, on, expanded) looped,
                round-Ended s current rest sound h popped t u n at step all last,
              )
        ]
  ]
