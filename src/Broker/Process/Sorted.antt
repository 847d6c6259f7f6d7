-- ===== src/Broker/Process/Sorted.antt =====
-- `sorted` by number: the same comments, in ascending order.

use desktop_pc24x7_runtime.Prelude.{
  ℕ, ◌<◌, ◌≢◌, ◌↔◌, inl, inr, List, [], ◌∷◌, arith, All, leb, Bool-cases,
}
use desktop_pc24x7_runtime.Json.{Json}
use desktop_pc24x7_runtime.Broker.Process.{comment_id, insert_by_id, sort_by_id}

-- The comments have different numbers.
abbrev pub DistinctIds : List Json → Type 0
DistinctIds [] = Unit
DistinctIds (c ∷ cs) = All (λ d. comment_id c ≢ comment_id d) cs × DistinctIds cs

-- The numbers grow from each comment to all that follow.
abbrev pub Ascending : List Json → Type 0
Ascending [] = Unit
Ascending (c ∷ cs) = All (λ d. comment_id c < comment_id d) cs × Ascending cs

module _ {κ} (P : Json → Type κ) where
  All-insert_by_id : (c : Json) (cs : List Json) → All P (insert_by_id c cs) ↔ (P c × All P cs)
  unfolding insert_by_id
  All-insert_by_id c [] = (λ h. h, λ h. h)
  All-insert_by_id c (d ∷ ds) = elim (Bool-cases (leb (comment_id c) (comment_id d))) [
    | inl e ↦ rw (e, insert_by_id) (λ h. h, λ h. h)
    | inr e ↦
        rw (e, insert_by_id)
          (
            λ h. let (p, q) = (All-insert_by_id c ds).0 h.1 in (p, (h.0, q)),
            λ h. (h.1.0, (All-insert_by_id c ds).1 (h.0, h.1.1)),
          )
  ]

  pub All-sort_by_id : (cs : List Json) → All P (sort_by_id cs) ↔ All P cs
  unfolding sort_by_id
  All-sort_by_id [] = (λ h. h, λ h. h)
  All-sort_by_id (c ∷ cs) = (
    λ h. let (p, q) = (All-insert_by_id c (sort_by_id cs)).0 h in (p, (All-sort_by_id cs).0 q),
    λ h. (All-insert_by_id c (sort_by_id cs)).1 (h.0, (All-sort_by_id cs).1 h.1),
  )

All-lt :
    (m n : ℕ) (cs : List Json)
    → m < n
    → All (λ d. n < comment_id d) cs
    → All (λ d. m < comment_id d) cs
All-lt m n [] le h = tt
All-lt m n (c ∷ cs) le h = (omega arith, All-lt m n cs le h.1)

insert_by_id-Ascending :
    (c : Json) (cs : List Json)
    → All (λ d. comment_id c ≢ comment_id d) cs
    → Ascending cs
    → Ascending (insert_by_id c cs)
unfolding insert_by_id
insert_by_id-Ascending c [] fresh h = (tt, tt)
insert_by_id-Ascending c (d ∷ ds) fresh h = elim (Bool-cases (leb (comment_id c) (comment_id d))) [
  | inl e ↦
      let lt : comment_id c < comment_id d = ground arith in
      rw (e, insert_by_id) ((lt, All-lt _ _ ds lt h.0), h)
  | inr e ↦
      rw (e, insert_by_id)
        (
          (All-insert_by_id (λ e. comment_id d < comment_id e) c ds).1 (ground arith, h.0),
          insert_by_id-Ascending c ds fresh.1 h.1,
        )
]

pub sort_by_id-Ascending : (cs : List Json) → DistinctIds cs → Ascending (sort_by_id cs)
unfolding sort_by_id
sort_by_id-Ascending [] h = tt
sort_by_id-Ascending (c ∷ cs) h =
    insert_by_id-Ascending c (sort_by_id cs)
      ((All-sort_by_id (λ d. comment_id c ≢ comment_id d) cs).1 h.0) (sort_by_id-Ascending cs h.1)
