-- ===== src/Ann/Search/Candidates.antt =====
-- What one search gives, from the entry point to the candidates.
use lumenvec.Base.{
  ℕ, zero, suc, ◌+◌, ◌≤◌, ◌<◌, ◌≡◌, refl, inl, inr, Bool, true, List, [], ◌∷◌, some, length, arith,
  All,
}
use lumenvec.Base.Arrays.{count, length-set}
use lumenvec.Numeric.{Floats}
use lumenvec.Distance.{Arithmetic}
use lumenvec.Ann.{DistancePair, Node, distance_to}
use lumenvec.Ann.Heaps.{min_first, max_first, push}
use lumenvec.Ann.Heaps.Laws.{push-Pushed, pop-Popped}
use lumenvec.Ann.Workspace.{Workspace, mark_visited}
use lumenvec.Ann.Workspace.Epochs.{IsUsed, Fresh, seen, seen-mark, mark-IsUsed}
use lumenvec.Ann.Search.{Searching, start_at, drain, search_candidates_with_workspace}
use lumenvec.Ann.Search.Progress.{Explored, AllHeld, Right, work, unseen, mark-unseen, holds}
use lumenvec.Ann.Search.Visits.{IsSound}
use lumenvec.Ann.Search.Loop.{count-le-length, Link, Frontier, search_loop-Ended}

module _ (fl : Floats) (ar : Arithmetic fl) where
  open fl use {F32, F64}

  drain-All :
      (rounds : ℕ) (h out : List (DistancePair F64))
      → length h ≡ rounds
      → (c : List (DistancePair F64)) × (drain fl ar rounds h out ≡ some c)
        × (length c ≡ rounds + length out)
        × ((p : DistancePair F64 → Bool) → count p c ≡ count p h + count p out)
        × ((P : DistancePair F64 → Type 0) → All P h → All P out → All P c)
  unfolding drain
  drain-All zero [] out e = (out, refl, omega arith, λ p. omega arith, λ P a b. b)
  drain-All zero (x ∷ h) out e = absurd (omega arith)
  drain-All (suc rounds) h out e = elim (pop-Popped (max_first fl ar) h) [
    | inl (empty, _) ↦ absurd (omega arith)
    | inr (item, rest, same, popped) ↦
        let (c, drained, size, bag, all) =
          drain-All rounds rest (item ∷ out) (omega (arith, popped.size)) in
        (
          c,
          rw (same, drain) drained,
          omega (arith, size),
          λ p. omega (arith, bag p, popped.bag p),
          λ P a b. let (first, others) = popped.all P a in all P others (first, b),
        )
  ]

  module _ (nodes : List (Node F32)) (query : List F32) (ef : ℕ) where
    -- The slots that the links lead to.
    pub data Reach (entry : ℕ) : ℕ → Type 0 where
      here : Reach entry entry
      next : {u v : ℕ} → Reach entry u → Link fl ar nodes query ef u v → Reach entry v

    -- The candidates are different slots, under their distances to the query, at most `ef`; where
    -- `ef` is at least the number of nodes, they are all the slots that can be reached.
    pub record Found (entry : ℕ) (candidates : List (DistancePair F64)) : Type 0 where
      pub right : All (Right fl ar nodes query ef) candidates
      pub once : (v : ℕ) → count (holds v) candidates ≤ 1
      pub size : length candidates ≤ ef
      pub inhabited : 0 < length candidates
      pub few : length candidates ≤ length nodes
      pub reached : length nodes ≤ ef → (v : ℕ) → Reach entry v → 1 ≤ count (holds v) candidates

    module _ (entry : ℕ) (dist : F64) (ws : Workspace) (some_kept : 0 < ef)
        (inside : entry < length nodes) (h : Fresh (length nodes) ws)
        (right : distance_to fl ar nodes query entry ≡ some dist) where
      abbrev first_pair : DistancePair F64
      first_pair = record { id = entry; distance = dist }

      abbrev started : Searching F64
      started = record {
        ws = mark_visited entry ws;
        min_q = push (min_first fl ar) first_pair [];
        max_q = push (max_first fl ar) first_pair [];
      }

      started-Explored :
          Explored fl ar nodes query ef started
          × (work fl ar nodes query ef started < suc (length nodes))
          × AllHeld fl ar nodes query ef started
          × Frontier fl ar nodes query ef started
          × (seen started.ws entry ≡ true)
      unfolding mark_visited
      started-Explored =
          let in_marks : entry < length ws.marks = omega (arith, h.size) in
          let low = push-Pushed (min_first fl ar) first_pair [] in
          let high = push-Pushed (max_first fl ar) first_pair [] in
          let fewer = mark-unseen ws entry in_marks (h.unseen entry) in
          let most : unseen ws ≤ length ws.marks = count-le-length _ ws.marks in
          (
            record {
              used =
                  mark-IsUsed (length nodes) entry ws
                    (record { size = omega (arith, h.size); old = h.old; fits = h.fits });
              size = omega (arith, length-set ws.marks entry ws.epoch, h.size);
              best = λ v. ground (arith, high.bag (holds v), seen-mark ws entry v in_marks);
              waiting = λ v. ground (arith, low.bag (holds v), seen-mark ws entry v in_marks);
              best_right = high.all (Right fl ar nodes query ef) tt right;
              waiting_right = low.all (Right fl ar nodes query ef) tt right;
              room = omega (arith, high.size);
              inhabited = omega (arith, high.size);
              tally = omega (arith, high.size, fewer, most, h.size);
            },
            omega (arith, low.size, fewer, most, h.size),
            λ v e. ground (arith, high.bag (holds v), seen-mark ws entry v in_marks, h.unseen v),
            λ u v link e.
                inr (ground (arith, low.bag (holds u), seen-mark ws entry u in_marks, h.unseen u)),
            ground (arith, seen-mark ws entry entry in_marks),
          )

    pub search_candidates-Found :
        (entry : ℕ) (ws : Workspace)
        → 0 < ef
        → entry < length nodes
        → IsSound fl ar nodes query ef
        → Fresh (length nodes) ws
        → (candidates : List (DistancePair F64)) × (ws' : Workspace)
          × (search_candidates_with_workspace fl ar nodes entry query ef ws
              ≡ some (candidates, ws'))
          × Found entry candidates
          × IsUsed (length nodes) ws'
    unfolding search_candidates_with_workspace start_at
    search_candidates-Found entry ws some_kept inside sound h =
        let (dist, right) = sound.distances entry inside in
        let s = started entry dist ws some_kept inside h right in
        let (explored, enough, all, front, entered) =
          started-Explored entry dist ws some_kept inside h right in
        let (t, looped, last) =
          search_loop-Ended fl ar nodes query ef (suc (length nodes)) s sound enough explored in
        let (c, drained, size, bag, kept) = drain-All (length t.max_q) t.max_q [] refl in
        let reach : length nodes ≤ ef → (v : ℕ) → Reach entry v → seen t.ws v ≡ true =
          λ wide v r. reached-seen t wide (last.marked entry entered) (last.closed wide front) r in
        (
          c,
          t.ws,
          rw (right, search_candidates_with_workspace, looped, drained) refl,
          record {
            right = kept (Right fl ar nodes query ef) last.explored.best_right tt;
            once = λ v. ground (arith, bag (holds v), last.explored.best v);
            size = omega (arith, size, last.explored.room);
            inhabited = omega (arith, size, last.explored.inhabited);
            few = omega (arith, size, last.explored.tally);
            reached =
                λ wide v r. omega (arith, bag (holds v), last.held wide all v (reach wide v r));
          },
          last.explored.used,
        )
      where
        reached-seen :
            (t : Searching F64)
            → length nodes ≤ ef
            → seen t.ws entry ≡ true
            → ((u v : ℕ) → Link fl ar nodes query ef u v → seen t.ws u ≡ true → seen t.ws v ≡ true)
            → {v : ℕ} → Reach entry v
            → seen t.ws v ≡ true
        reached-seen t wide entered closed here = entered
        reached-seen t wide entered closed (next {u} {v} r link) =
            closed u v link (reached-seen t wide entered closed r)
