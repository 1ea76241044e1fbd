-- ===== src/Sip/Digest/Candidates.antt =====
-- The candidates of `choose_digest_challenge` in rfcvoip/SIPAuth.py, sorted.
use mathlib.Core.Path.{subst}
use rfcvoip.Prelude.{
  ℕ, suc, ◌≤◌, ◌<◌, ◌≡◌, refl, sym, ap, true, false, Option, none, some, inl, inr, List, [], ◌∷◌,
  ◌++◌, All, All-append, Bool-cases, arith,
}
use rfcvoip.Sip.Dict.{Dict}
use rfcvoip.Sip.Digest.Challenge.{
  rank_of, Candidate, append_candidate, candidates_from, goes_before, insert_candidate,
  sort_candidates,
}

-- The rank of a challenge that is not skipped has a property.
abbrev pub Ranks : (ℕ → Type 0) → Option ℕ → Type 0
Ranks P none = Unit {0}
Ranks P (some rank) = P rank

abbrev pub AllRank : (supported : List (List ℕ)) → (ℕ → Type 0) → List (Option Dict) → Type 0
AllRank supported P = All (λ c. Ranks P (rank_of supported c))

-- What a choice says of the challenges: none can be answered, or the chosen one is the first of those
-- that rank best.
pub data Chosen (supported : List (List ℕ)) (challenges : List (Option Dict))
    : Option Dict → Type 0 where
  nothing : All (λ c. rank_of supported c ≡ none) challenges → Chosen supported challenges none
  best :
      (before : List (Option Dict)) (d : Dict) (after : List (Option Dict)) (rank : ℕ)
      → challenges ≡ before ++ some d ∷ after
      → rank_of supported (some d) ≡ some rank
      → AllRank supported (λ r. rank < r) before
      → AllRank supported (λ r. rank ≤ r) after
      → Chosen supported challenges (some d)

-- The first of the candidates that rank best is where the sorted list begins.
pub data Leads (cs : List Candidate) : List Candidate → Type 0 where
  no_candidate : cs ≡ [] → Leads cs []
  leads :
      (before : List Candidate) (c : Candidate) (after : List Candidate) (rest : List Candidate)
      → cs ≡ before ++ c ∷ after
      → All (λ d. c.rank < d.rank) before
      → All (λ d. c.rank ≤ d.rank) after
      → Leads cs (c ∷ rest)

-- Indices that grow along the list
abbrev Grows : ℕ → List Candidate → Type 0
Grows i [] = Unit {0}
Grows i (c ∷ cs) = (i ≤ c.index) × Grows (suc c.index) cs

at_least : (i : ℕ) (cs : List Candidate) → Grows i cs → All (λ d. i ≤ d.index) cs
at_least i [] g = tt
at_least i (c ∷ cs) (h, g) = (h, weaken c.index cs (at_least (suc c.index) cs g) h)
  where
    weaken :
        (j : ℕ) (ds : List Candidate)
        → All (λ d. suc j ≤ d.index) ds
        → i ≤ j
        → All (λ d. i ≤ d.index) ds
    weaken j [] a b = tt
    weaken j (d ∷ ds) (a, more) b = (omega arith, weaken j ds more b)

weaken_rank :
    (r s : ℕ) (ds : List Candidate) → r ≤ s → All (λ d. s < d.rank) ds → All (λ d. r ≤ d.rank) ds
weaken_rank r s [] h a = tt
weaken_rank r s (d ∷ ds) h (a, more) = (omega arith, weaken_rank r s ds h more)

weaken_rank_le :
    (r s : ℕ) (ds : List Candidate) → r ≤ s → All (λ d. s ≤ d.rank) ds → All (λ d. r ≤ d.rank) ds
weaken_rank_le r s [] h a = tt
weaken_rank_le r s (d ∷ ds) h (a, more) = (omega arith, weaken_rank_le r s ds h more)

All-middle :
    (P : Candidate → Type 0) (before : List Candidate) (c : Candidate) (after : List Candidate)
    → All P (before ++ c ∷ after)
    → P c
All-middle P [] c after h = h.0
All-middle P (b ∷ before) c after h = All-middle P before c after h.1

leading : (c d : Candidate) → goes_before c d ≡ true → c.rank ≤ d.rank
leading c d h = ground (arith, h)

trailing : (c d : Candidate) → goes_before c d ≡ false → suc c.index ≤ d.index → d.rank < c.rank
trailing c d h k = ground (arith, h, k)

insert-Leads :
    (c : Candidate) (cs : List Candidate) {sorted : List Candidate}
    → All (λ d. suc c.index ≤ d.index) cs
    → Leads cs sorted
    → Leads (c ∷ cs) (insert_candidate c sorted)
insert-Leads c cs later (no_candidate e) = leads [] c [] [] (ap (λ t. c ∷ t) e) tt tt
insert-Leads c cs later (leads before d after rest e strict weak) =
    elim (Bool-cases (goes_before c d)) [
      | inl first ↦ rw first (
          leads [] c cs (d ∷ rest) refl tt (
            subst (λ l. All (λ x. c.rank ≤ x.rank) l) (sym e)
              (All-append (λ x. c.rank ≤ x.rank) before (d ∷ after)
                (weaken_rank c.rank d.rank before (leading c d first) strict)
                (leading c d first, weaken_rank_le c.rank d.rank after (leading c d first) weak))))
      | inr second ↦ rw second (
          leads (c ∷ before) d after (insert_candidate c rest) (ap (λ t. c ∷ t) e)
            (
              trailing c d second (
                  All-middle (λ x. suc c.index ≤ x.index) before d after
                    (subst (λ l. All (λ x. suc c.index ≤ x.index) l) e later)),
              strict,
            )
            weak)
    ]

pub sort-Leads : (i : ℕ) (cs : List Candidate) → Grows i cs → Leads cs (sort_candidates cs)
unfolding sort_candidates
sort-Leads i [] g = no_candidate refl
sort-Leads i (c ∷ cs) (h, g) =
    insert-Leads c cs (at_least (suc c.index) cs g) (sort-Leads (suc c.index) cs g)

pub candidates-Grows :
    (supported : List (List ℕ)) (i : ℕ) (challenges : List (Option Dict))
    → Grows i (candidates_from supported i challenges)
unfolding candidates_from
candidates-Grows supported i [] = tt
candidates-Grows supported i (c ∷ challenges) =
    appended (rank_of supported c) c (candidates_from supported (suc i) challenges)
      (candidates-Grows supported (suc i) challenges)
  where
    later : (cs : List Candidate) → Grows (suc i) cs → Grows i cs
    later [] g = tt
    later (d ∷ ds) (h, g) = (omega arith, g)

    appended :
        (o : Option ℕ) (c : Option Dict) (cs : List Candidate)
        → Grows (suc i) cs
        → Grows i (append_candidate o i c cs)
    appended none c cs g = later cs g
    appended (some r) none cs g = later cs g
    appended (some r) (some d) cs g = (omega arith, g)
