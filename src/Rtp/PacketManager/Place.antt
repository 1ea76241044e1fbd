-- ===== src/Rtp/PacketManager/Place.antt =====
-- What stands in the buffer of the packet manager after data was placed in it.
use native.Mathlib.Decide.{dec_lt}
use rfcvoip.Prelude.{
  ℕ, ◌+◌, ◌-◌, ◌≤◌, ◌<◌, ◌≡◌, refl, ap, ◌∙◌, some, List, [], ◌∷◌, ◌++◌, length, take, drop,
  replicate, get_elem?, length-append, length-replicate, length-take, ltb, if◌then◌else◌, arith,
  inl, inr, lt→ltb, le→ltb, get_elem?-take, get_elem?-drop, get_elem?-append_left,
  get_elem?-append_right, append-nil, take_all, drop_all, ◌⊎◌, get_elem?_bound,
}
use rfcvoip.Rtp.BytesIo.{BytesIo, overwrite, seek_end, seek}
use rfcvoip.Rtp.BytesIo
use rfcvoip.Rtp.PacketManager.{place}

module _ (content bytes : List ℕ) (pos : ℕ) (inside : pos ≤ length content) where
  overwrite_lem :
      overwrite content pos bytes ≡ take pos content ++ (bytes ++ drop (pos + length bytes) content)
  overwrite_lem = let e : pos - length content ≡ 0 = omega arith in rw e

  before_size : length (take pos content) ≡ pos
  before_size = omega (arith, length-take pos content)

  overwrite_before :
      (i : ℕ) → i < pos → get_elem? (overwrite content pos bytes) i ≡ get_elem? content i
  overwrite_before i h = rw overwrite_lem (
      get_elem?-append_left (take pos content) _ i (omega (arith, before_size))
      ∙ get_elem?-take pos content i h)

  behind_take :
      (i : ℕ)
      → pos ≤ i
      → get_elem? (overwrite content pos bytes) i
        ≡ get_elem? (bytes ++ drop (pos + length bytes) content) (i - pos)
  behind_take i h =
      rw overwrite_lem (
        get_elem?-append_right (take pos content) _ i (omega (arith, before_size)) ∙ rw before_size)

  overwrite_in :
      (i : ℕ)
      → pos ≤ i
      → i < pos + length bytes
      → get_elem? (overwrite content pos bytes) i ≡ get_elem? bytes (i - pos)
  overwrite_in i h k = behind_take i h ∙ get_elem?-append_left bytes _ (i - pos) (omega arith)

  overwrite_behind :
      (i : ℕ)
      → pos + length bytes ≤ i
      → get_elem? (overwrite content pos bytes) i ≡ get_elem? content i
  overwrite_behind i h =
      behind_take i (omega arith)
      ∙ get_elem?-append_right bytes _ (i - pos) (omega arith)
      ∙ get_elem?-drop (pos + length bytes) content (i - pos - length bytes)
      ∙ ap (get_elem? content) (omega arith)

-- The content after the gap, if there is one, was filled with silence.
abbrev filled : ℕ → ℕ → List ℕ → List ℕ
filled silence adjusted content = content ++ replicate (adjusted - length content) silence

write_content :
    (bytes : List ℕ) (b : BytesIo)
    → 0 < length bytes
    → (BytesIo.write bytes b).content ≡ overwrite b.content b.pos bytes
write_content [] b h = elim h [ ]
write_content (x ∷ bytes) b h = refl

append_end : (content bytes : List ℕ) → overwrite content (length content) bytes ≡ content ++ bytes
append_end content bytes =
    overwrite_lem content bytes (length content) (omega arith)
    ∙ rw (
      take_all (length content) content (omega arith),
      drop_all (length content + length bytes) content (omega arith),
      append-nil,
    )

-- The gap is filled before the data is written.
at_filled : (silence adjusted : ℕ) → BytesIo → BytesIo
at_filled silence adjusted buffer =
    if ltb (length buffer.content) adjusted
    then BytesIo.write (replicate (adjusted - length buffer.content) silence) (seek_end buffer)
    else seek_end buffer

filled_content :
    (silence adjusted : ℕ) (buffer : BytesIo)
    → (at_filled silence adjusted buffer).content ≡ filled silence adjusted buffer.content
unfolding at_filled
filled_content silence adjusted buffer =
    let gap = replicate (adjusted - length buffer.content) silence in
    let size : length gap ≡ adjusted - length buffer.content = length-replicate _ silence in
    elim (dec_lt (length buffer.content) adjusted) [
      | yes short ↦ rw (lt→ltb _ _ short) (
          write_content gap (seek_end buffer) (omega (arith, size)) ∙ append_end buffer.content gap)
      | no long ↦
          let e : adjusted - length buffer.content ≡ 0 = omega arith in
          rw (le→ltb (length buffer.content) adjusted (omega arith), e, append-nil)
    ]

length-filled :
    (silence adjusted : ℕ) (content : List ℕ) → adjusted ≤ length (filled silence adjusted content)
length-filled silence adjusted content = omega (
  arith,
  length-append content (replicate (adjusted - length content) silence),
  length-replicate (adjusted - length content) silence,
)

-- Without data only the gap is filled.
pub place_empty :
    (silence adjusted : ℕ) (buffer : BytesIo) (i x : ℕ)
    → get_elem? buffer.content i ≡ some x
    → get_elem? (place silence adjusted [] buffer).content i ≡ some x
unfolding place at_filled
place_empty silence adjusted buffer i x found =
    ap (λ (c : List ℕ). get_elem? c i) (filled_content silence adjusted buffer)
    ∙ get_elem?-append_left buffer.content _ i (get_elem?_bound buffer.content i x found)
    ∙ found

module _ (silence adjusted : ℕ) (bytes : List ℕ) (buffer : BytesIo)
    (some_bytes : 0 < length bytes) where
  place_content :
      (place silence adjusted bytes buffer).content
      ≡ overwrite (filled silence adjusted buffer.content) adjusted bytes
  unfolding place at_filled
  place_content =
      write_content bytes (seek adjusted (at_filled silence adjusted buffer)) some_bytes
      ∙ ap (λ (c : List ℕ). overwrite c adjusted bytes) (filled_content silence adjusted buffer)

  -- The data stands where it was placed.
  pub place_in :
      (i : ℕ)
      → adjusted ≤ i
      → i < adjusted + length bytes
      → get_elem? (place silence adjusted bytes buffer).content i ≡ get_elem? bytes (i - adjusted)
  place_in i h k = rw place_content (
      overwrite_in (filled silence adjusted buffer.content) bytes adjusted
        (length-filled silence adjusted buffer.content) i h k)

  -- Every other byte of the buffer stays.
  pub place_out :
      (i : ℕ) (x : ℕ)
      → (i < adjusted) ⊎ (adjusted + length bytes ≤ i)
      → get_elem? buffer.content i ≡ some x
      → get_elem? (place silence adjusted bytes buffer).content i ≡ some x
  place_out i x away found =
      let there : i < length buffer.content = bound i x found in
      let kept : get_elem? (filled silence adjusted buffer.content) i ≡ some x =
        get_elem?-append_left buffer.content _ i there ∙ found in
      let room = length-filled silence adjusted buffer.content in
      rw place_content (elim away [
        | inl before ↦
            overwrite_before (filled silence adjusted buffer.content) bytes adjusted room i before
            ∙ kept
        | inr behind ↦
            overwrite_behind (filled silence adjusted buffer.content) bytes adjusted room i behind
            ∙ kept
      ])
    where
      bound : (i x : ℕ) → get_elem? buffer.content i ≡ some x → i < length buffer.content
      bound i x e = get_elem?_bound buffer.content i x e
