-- ===== src/Voip/Media/Targets.antt =====
-- The expanded connections and the targets made of them.
use mathlib.Core.Path.{subst}
use rfcvoip.Prelude.{
  ℕ, zero, suc, ◌+◌, ◌-◌, ◌≤◌, ◌<◌, ◌≡◌, refl, sym, ap, ◌∙◌, ◌||◌, Option, inl, inr, List, [], ◌∷◌,
  ◌++◌, map, length, length-append, All, All-append, range_from, ltb, arith, Bool-cases,
}
use rfcvoip.Prelude.Int.{ℤ, pos, negsuc}
use rfcvoip.Voip.Media.{
  Address, Checked, failed, passed, ◌>>=◌, Connection, Expanded, connection_address_at, count_of,
  expand_offsets, expand_counted, expand_connections, media_connections, expanded_media_connections,
  Target, number_targets, within_ports, media_rtp_targets,
}

-- What a step returns satisfies `P`, if it returns.
abbrev OnPassed : {A : Type 0} → (A → Type 0) → Checked A → Type 0
OnPassed P (failed error) = Unit
OnPassed P (passed value) = P value

OnPassed-bind :
    {A B : Type 0} (P : A → Type 0) (Q : B → Type 0) (m : Checked A) (f : A → Checked B)
    → OnPassed P m
    → ((a : A) → P a → OnPassed Q (f a))
    → OnPassed Q (m >>= f)
OnPassed-bind P Q (failed error) f h k = tt
OnPassed-bind P Q (passed value) f h k = k value h

OnPassed-self : {A : Type 0} (m : Checked A) → OnPassed (λ a. m ≡ passed a) m
OnPassed-self (failed error) = tt
OnPassed-self (passed value) = refl

abbrev index_of : Expanded → ℕ
index_of e = e.connection_index

abbrev port_of : Target → ℕ
port_of t = t.port

-- The address is one of those that the source address and its count stand for.
abbrev pub IsCounted : Expanded → Type 0
IsCounted e =
    (offset : ℕ) × (offset < e.source_address_count)
    × (connection_address_at e.source_address offset ≡ passed e.address)

-- The connections are numbered from 0 in their order, and each address is one of its source.
pub record IsNumbered (es : List Expanded) : Type 0 where
  pub numbered : map index_of es ≡ range_from 0 (length es)
  pub counted : All IsCounted es

range_from-suc :
    (start count : ℕ)
    → range_from start (suc count) ≡ range_from start count ++ (start + count) ∷ []
range_from-suc start zero = ap (λ (n : ℕ). n ∷ []) (omega arith)
range_from-suc start (suc count) =
    ap (λ (ns : List ℕ). start ∷ ns)
      (range_from-suc (suc start) count
        ∙ ap (λ (n : ℕ). range_from (suc start) count ++ n ∷ []) (omega arith))

map-append_last :
    (f : Expanded → ℕ) (es : List Expanded) (e : Expanded)
    → map f (es ++ e ∷ []) ≡ map f es ++ f e ∷ []
map-append_last f [] e = refl
map-append_last f (d ∷ es) e = ap (λ (ns : List ℕ). f d ∷ ns) (map-append_last f es e)

append-IsNumbered :
    (es : List Expanded) (e : Expanded)
    → IsNumbered es
    → e.connection_index ≡ length es
    → IsCounted e
    → IsNumbered (es ++ e ∷ [])
append-IsNumbered es e h i counted = record {
  numbered =
      map-append_last index_of es e
      ∙ ap (λ (ns : List ℕ). ns ++ e.connection_index ∷ []) h.numbered
      ∙ ap (λ (n : ℕ). range_from 0 (length es) ++ n ∷ []) (omega (arith, i))
      ∙ sym (range_from-suc 0 (length es))
      ∙ ap (range_from 0) (
          let size : suc (length es) ≡ length (es ++ e ∷ []) =
            omega (arith, length-append es (e ∷ [])) in
          size);
  counted = All-append IsCounted es (e ∷ []) h.counted (counted, tt);
}

expand_offsets-IsNumbered :
    (c : Connection) (count offset todo : ℕ) (es : List Expanded)
    → offset + todo ≤ count
    → IsNumbered es
    → OnPassed IsNumbered (expand_offsets c count offset todo es)
unfolding expand_offsets
expand_offsets-IsNumbered c count offset zero es within h = h
expand_offsets-IsNumbered c count offset (suc todo) es within h =
    OnPassed-bind (λ address. connection_address_at c.address offset ≡ passed address) IsNumbered
      (connection_address_at c.address offset) _
      (OnPassed-self (connection_address_at c.address offset))
      (λ address at.
        expand_offsets-IsNumbered c count (suc offset) todo _ (omega (arith, within))
          (append-IsNumbered es _ h refl (offset, omega (arith, within), at)))

expand_counted-IsNumbered :
    (count : ℤ) (c : Connection) (es : List Expanded)
    → IsNumbered es
    → OnPassed IsNumbered (expand_counted count c es)
expand_counted-IsNumbered (negsuc n) c es h = tt
expand_counted-IsNumbered (pos zero) c es h = tt
expand_counted-IsNumbered (pos (suc n)) c es h =
    elim (Bool-cases (ltb (65535 - length es) (suc n))) [
      | inl large ↦ rw large tt
      | inr fits ↦ rw fits (expand_offsets-IsNumbered c (suc n) 0 (suc n) es (omega arith) h)
    ]

expand_connections-IsNumbered :
    (cs : List Connection) (es : List Expanded)
    → IsNumbered es
    → OnPassed IsNumbered (expand_connections cs es)
unfolding expand_connections
expand_connections-IsNumbered [] es h = h
expand_connections-IsNumbered (c ∷ cs) es h =
    OnPassed-bind IsNumbered IsNumbered (expand_counted (count_of c.address_count) c es)
      (expand_connections cs) (expand_counted-IsNumbered (count_of c.address_count) c es h)
      (λ ds k. expand_connections-IsNumbered cs ds k)

-- The targets from a base port on: their ports are consecutive from it and end at 65535 or before,
-- and their connections are numbered and stand for addresses of their sources.
pub record IsTargets (base : ℕ) (ts : List Target) : Type 0 where
  pub ports : map port_of ts ≡ range_from base (length ts)
  pub below : base + length ts ≤ 65536
  pub connections : IsNumbered (map (λ (t : Target). t.connection) ts)
  pub addresses : map (λ (t : Target). t.address) ts ≡ map (λ (t : Target). t.connection.address) ts

ports-number :
    (base index : ℕ) (es : List Expanded)
    → map port_of (number_targets base index es) ≡ range_from (base + index) (length es)
ports-number base index [] = refl
ports-number base index (e ∷ es) =
    ap (λ (ns : List ℕ). (base + index) ∷ ns)
      (ports-number base (suc index) es ∙ ap (λ (n : ℕ). range_from n (length es)) (omega arith))

length-number :
    (base index : ℕ) (es : List Expanded) → length (number_targets base index es) ≡ length es
length-number base index [] = refl
length-number base index (e ∷ es) = ap suc (length-number base (suc index) es)

connections-number :
    (base index : ℕ) (es : List Expanded)
    → map (λ (t : Target). t.connection) (number_targets base index es) ≡ es
connections-number base index [] = refl
connections-number base index (e ∷ es) =
    ap (λ (ds : List Expanded). e ∷ ds) (connections-number base (suc index) es)

addresses-number :
    (base index : ℕ) (es : List Expanded)
    → map (λ (t : Target). t.address) (number_targets base index es)
      ≡ map (λ (t : Target). t.connection.address) (number_targets base index es)
addresses-number base index [] = refl
addresses-number base index (e ∷ es) =
    ap (λ (xs : List Address). e.address ∷ xs) (addresses-number base (suc index) es)

within_ports-IsTargets :
    (base : ℕ) (es : List Expanded)
    → 0 < base
    → IsNumbered es
    → OnPassed (IsTargets base) (within_ports base es)
within_ports-IsTargets base es some_port h = elim (Bool-cases (ltb 65535 (base + length es - 1))) [
  | inl high ↦ rw high tt
  | inr fits ↦
      let end : base + length es ≤ 65536 = ground (arith, fits) in
      rw fits (record {
        ports =
            ports-number base 0 es
            ∙ ap (λ (n : ℕ). range_from n (length es)) (omega arith)
            ∙ ap (range_from base) (sym (length-number base 0 es));
        below = omega (arith, end, length-number base 0 es);
        connections = subst IsNumbered (sym (connections-number base 0 es)) h;
        addresses = addresses-number base 0 es;
      })
]

media_rtp_targets-OnPassed :
    (media : List Connection) (session all : Option (List Connection)) (base : ℕ)
    → OnPassed (IsTargets base) (media_rtp_targets media session all (pos base))
unfolding media_rtp_targets expanded_media_connections
media_rtp_targets-OnPassed media session all base =
    elim (Bool-cases (ltb base 1 || ltb 65535 base)) [
      | inl outside ↦ rw outside tt
      | inr inside ↦ rw inside (
          OnPassed-bind IsNumbered (IsTargets base)
            (expand_connections (media_connections media session all) []) (within_ports base)
            (expand_connections-IsNumbered (media_connections media session all) []
              (record { numbered = refl; counted = tt }))
            (λ es h. within_ports-IsTargets base es (ground (arith, inside)) h))
    ]

-- Where `_media_rtp_targets` returns, the ports of its targets are consecutive from the base port on
-- and end at 65535 or before; its connections are numbered from 0 in their order, and each address is
-- its source's, moved by less than the source's count.
pub media_rtp_targets-IsTargets :
    (media : List Connection) (session all : Option (List Connection)) (base : ℕ) (ts : List Target)
    → media_rtp_targets media session all (pos base) ≡ passed ts
    → IsTargets base ts
media_rtp_targets-IsTargets media session all base ts h =
    subst (OnPassed (IsTargets base)) h (media_rtp_targets-OnPassed media session all base)
