-- ===== src/Sip/Utf8.antt =====
-- `bytes.decode("utf8", errors="replace")`, as the framing of streams calls it: a maximal part of a
-- sequence that is no character becomes U+FFFD.
use rfcvoip.Prelude.{
  ℕ, zero, suc, ◌+◌, ◌-◌, ◌*◌, ◌/◌, ◌%◌, ◌<◌, ◌≤◌, ◌≡◌, refl, sym, append_assoc, Bool, true, false,
  List, [], ◌∷◌, ◌++◌, ltb, leb, ◌==◌, if◌then◌else◌, arith, All, All-append, Bool-cases, inl, inr,
}
use rfcvoip.Text.{IsFree}

-- `pending more acc low high`: the next byte, in the range from `low` to `high`, is followed by
-- `more` others, and `acc` is the number read so far.
pub data State : Type 0 where
  idle : State
  pending : (more acc low high : ℕ) → State

abbrev pub replacement : ℕ
replacement = 0xfffd

-- The first byte of a character.
unfoldable pub start : ℕ → List ℕ × State
start b =
    if ltb b 0x80
    then (b ∷ [], idle)
    else if ltb b 0xc2
    then (replacement ∷ [], idle)
    else if ltb b 0xe0
    then ([], pending 0 (b - 0xc0) 0x80 0xbf)
    else if b == 0xe0
    then ([], pending 1 0 0xa0 0xbf)
    else if b == 0xed
    then ([], pending 1 0x0d 0x80 0x9f)
    else if ltb b 0xf0
    then ([], pending 1 (b - 0xe0) 0x80 0xbf)
    else if b == 0xf0
    then ([], pending 2 0 0x90 0xbf)
    else if ltb b 0xf4
    then ([], pending 2 (b - 0xf0) 0x80 0xbf)
    else if b == 0xf4
    then ([], pending 2 4 0x80 0x8f)
    else (replacement ∷ [], idle)

abbrev pub restart : List ℕ × State → List ℕ × State
restart (out, state) = (replacement ∷ out, state)

abbrev pub is_outside : (low high b : ℕ) → Bool
is_outside low high b = if leb low b then ltb high b else true

abbrev pub next : (more value : ℕ) → List ℕ × State
next zero value = (value ∷ [], idle)
next (suc more) value = ([], pending more value 0x80 0xbf)

unfoldable pub step : State → ℕ → List ℕ × State
step idle b = start b
step (pending more acc low high) b =
    if is_outside low high b then restart (start b) else next more (acc * 64 + (b - 0x80))

abbrev pub flush : State → List ℕ
flush idle = []
flush (pending more acc low high) = replacement ∷ []

unfoldable pub decode_from : State → List ℕ → List ℕ
decode_from state [] = flush state
decode_from state (b ∷ bs) = (step state b).0 ++ decode_from (step state b).1 bs

-- `decode("utf8", errors="replace")`
unfoldable pub decode : List ℕ → List ℕ
decode bs = decode_from idle bs

-- What the states of a decoder have in common: what is read next is no ASCII, and the character will
-- be none.
abbrev pub IsWide : State → Type 0
IsWide idle = Unit {0}
IsWide (pending zero acc low high) = (0x80 ≤ low) × (2 ≤ acc)
IsWide (pending (suc more) acc low high) = (0x80 ≤ low) × (2 ≤ acc * 64 + (low - 0x80))

start-IsWide : (b : ℕ) → IsWide (start b).1
unfolding start
start-IsWide b = ground arith

next-IsWide : (more value : ℕ) → 2 ≤ value → IsWide (next more value).1
next-IsWide zero value h = tt
next-IsWide (suc zero) value h = omega arith
next-IsWide (suc (suc more)) value h = omega arith

value_wide :
    (more acc low high b : ℕ)
    → IsWide (pending more acc low high)
    → is_outside low high b ≡ false
    → 2 ≤ acc * 64 + (b - 0x80)
value_wide zero acc low high b wide inside = ground arith
value_wide (suc more) acc low high b wide inside = ground arith

step-IsWide : (state : State) (b : ℕ) → IsWide state → IsWide (step state b).1
unfolding step
step-IsWide idle b wide = start-IsWide b
step-IsWide (pending more acc low high) b wide = elim (Bool-cases (is_outside low high b)) [
  | inl outside ↦ rw outside (start-IsWide b)
  | inr inside ↦ rw inside (next-IsWide more _ (value_wide more acc low high b wide inside))
]

start_ascii : (b : ℕ) → b < 0x80 → start b ≡ (b ∷ [], idle)
unfolding start
start_ascii b h = ground arith

step_ascii :
    (state : State) (b : ℕ) → IsWide state → b < 0x80 → step state b ≡ (flush state ++ b ∷ [], idle)
unfolding step
step_ascii idle b wide h = start_ascii b h
step_ascii (pending zero acc low high) b wide h = ground (arith, start_ascii b h)
step_ascii (pending (suc more) acc low high) b wide h = ground (arith, start_ascii b h)

decode_from-append :
    (state : State) (xs : List ℕ) (b : ℕ) (ys : List ℕ)
    → IsWide state
    → b < 0x80
    → decode_from state (xs ++ b ∷ ys) ≡ decode_from state xs ++ b ∷ decode ys
unfolding decode_from decode
decode_from-append state [] b ys wide h =
    rw (step_ascii state b wide h) (append_assoc (flush state) (b ∷ []) (decode_from idle ys))
decode_from-append state (x ∷ xs) b ys wide h =
    rw (decode_from-append (step state x).1 xs b ys (step-IsWide state x wide) h)
      (sym (append_assoc (step state x).0 (decode_from (step state x).1 xs) (b ∷ decode ys)))

-- An ASCII byte decodes to its character, and what stands around it is decoded on its own.
pub decode-append :
    (xs : List ℕ) (b : ℕ) (ys : List ℕ)
    → b < 0x80
    → decode (xs ++ b ∷ ys) ≡ decode xs ++ b ∷ decode ys
unfolding decode
decode-append xs b ys h = decode_from-append idle xs b ys tt h

-- ASCII bytes decode to themselves.
pub decode_ascii : (bs : List ℕ) → All (λ b. b < 0x80) bs → decode bs ≡ bs
unfolding decode decode_from step
decode_ascii [] h = refl
decode_ascii (b ∷ bs) (h, rest) = rw (start_ascii b h, decode_ascii bs rest)

-- A test that only ASCII characters pass.
abbrev pub IsAscii : (ℕ → Bool) → Type 0
IsAscii test = (c : ℕ) → 0x80 ≤ c → test c ≡ false

module _ (test : ℕ → Bool) (ascii : IsAscii test) where
  start-IsFree : (b : ℕ) → test b ≡ false → IsFree test (start b).0
  unfolding start
  start-IsFree b h = ground (arith, ascii 0xfffd (omega arith))

  restart-IsFree : (o : List ℕ × State) → IsFree test o.0 → IsFree test (restart o).0
  restart-IsFree o h = (ascii 0xfffd (omega arith), h)

  next-IsFree :
      (more acc low high b : ℕ)
      → IsWide (pending more acc low high)
      → IsFree test (next more (acc * 64 + (b - 0x80))).0
  next-IsFree zero acc low high b wide = (ascii _ (omega arith), tt)
  next-IsFree (suc more) acc low high b wide = tt

  step-IsFree :
      (state : State) (b : ℕ) → IsWide state → test b ≡ false → IsFree test (step state b).0
  unfolding step
  step-IsFree idle b wide h = start-IsFree b h
  step-IsFree (pending more acc low high) b wide h = elim (Bool-cases (is_outside low high b)) [
    | inl outside ↦ rw outside (restart-IsFree (start b) (start-IsFree b h))
    | inr inside ↦ rw inside (next-IsFree more acc low high b wide)
  ]

  flush-IsFree : (state : State) → IsFree test (flush state)
  flush-IsFree idle = tt
  flush-IsFree (pending more acc low high) = (ascii 0xfffd (omega arith), tt)

  decode_from-IsFree :
      (state : State) (bs : List ℕ)
      → IsWide state
      → IsFree test bs
      → IsFree test (decode_from state bs)
  unfolding decode_from
  decode_from-IsFree state [] wide free = flush-IsFree state
  decode_from-IsFree state (b ∷ bs) wide (h, free) =
      All-append (λ c. test c ≡ false) (step state b).0 _ (step-IsFree state b wide h)
        (decode_from-IsFree (step state b).1 bs (step-IsWide state b wide) free)

  -- A decoded text has no ASCII character that its bytes do not have.
  pub decode-IsFree : (bs : List ℕ) → IsFree test bs → IsFree test (decode bs)
  unfolding decode
  decode-IsFree bs free = decode_from-IsFree idle bs tt free

-- `str.encode("utf-8")` of one character
abbrev pub encode_char : ℕ → List ℕ
encode_char c =
    if ltb c 0x80
    then c ∷ []
    else if ltb c 0x800
    then (0xc0 + c / 64) ∷ (0x80 + c % 64) ∷ []
    else if ltb c 0x10000
    then (0xe0 + c / 4096) ∷ (0x80 + c / 64 % 64) ∷ (0x80 + c % 64) ∷ []
    else (0xf0 + c / 262144) ∷ (0x80 + c / 4096 % 64) ∷ (0x80 + c / 64 % 64) ∷ (0x80 + c % 64) ∷ []

unfoldable pub encode : List ℕ → List ℕ
encode [] = []
encode (c ∷ cs) = encode_char c ++ encode cs
