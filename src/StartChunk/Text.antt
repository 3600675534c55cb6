-- ===== src/StartChunk/Text.antt =====
-- The file name of a start chunk is read back as it was written.
use inecontainer.Prelude.{
  ℕ, zero, suc, ◌+◌, ◌-◌, ◌≤◌, ◌<◌, ◌≡◌, ◌≢◌, refl, ◌∙◌, ap, List, [], ◌∷◌, ◌++◌, append_assoc,
  length, take, drop, take_all, drop-append, length-take, replicate, some, ne→==, le→leb, arith,
}
use inecontainer.Prelude.Words.{sub32}
use inecontainer.Header.{ChunkHeader}
use inecontainer.Stream.{stream_identifier}
use inecontainer.StartChunk.{
  maximum_virtual_filename_length, c_string, strncpy, clear_at, raw_filename, with_filename,
  set_virtual_filename, virtual_filename,
}

-- A text without a zero.
abbrev pub IsText : List ℕ → Type 0
IsText [] = Unit
IsText (x ∷ xs) = (x ≢ 0) × IsText xs

c_string-text : (name : List ℕ) → IsText name → c_string name ≡ name
unfolding c_string
c_string-text [] t = refl
c_string-text (x ∷ xs) t = rw (ne→== x 0 t.0) (ap (◌∷◌ x) (c_string-text xs t.1))

c_string-take :
    (n : ℕ) (name rest unset : List ℕ)
    → IsText name
    → length name < n
    → c_string (take n (name ++ 0 ∷ rest) ++ unset) ≡ name
unfolding c_string
c_string-take zero name rest unset t lt = absurd (omega arith)
c_string-take (suc n) [] rest unset t lt = refl
c_string-take (suc n) (x ∷ xs) rest unset t lt =
    rw (ne→== x 0 t.0) (ap (◌∷◌ x) (c_string-take n xs rest unset t.1 (omega arith)))

take-end : (name rest : List ℕ) → take (length name + 1) (name ++ 0 ∷ rest) ≡ name ++ 0 ∷ []
take-end [] rest = refl
take-end (x ∷ xs) rest =
    ap (λ (n : ℕ). take n (x ∷ (xs ++ 0 ∷ rest))) next ∙ ap (◌∷◌ x) (take-end xs rest)
  where
    next : suc (length xs) + 1 ≡ suc (length xs + 1)
    next = omega arith

one_zero : (n : ℕ) → 1 ≤ n → replicate {A = ℕ} n 0 ≡ 0 ∷ replicate (n - 1) 0
one_zero zero le = absurd (omega arith)
one_zero (suc n) le = ap (λ (k : ℕ). 0 ∷ replicate {A = ℕ} k 0) (omega arith)

-- What `setVirtualFilename` makes of a header.
abbrev pub named : List ℕ → ChunkHeader → ChunkHeader
named name h =
    with_filename
      (clear_at (length name + 1) (sub32 maximum_virtual_filename_length (length name + 1))
        (strncpy (raw_filename h) name maximum_virtual_filename_length))
      h

pub set_virtual_filename-some :
    (name : List ℕ) (h : ChunkHeader)
    → length name ≤ 118
    → set_virtual_filename name h ≡ some (named name h)
unfolding set_virtual_filename
set_virtual_filename-some name h short = rw (le→leb (length name + 1) 119 (omega arith)) refl

-- The four bytes of the identifier decide it.
same_front :
    (array rest : List ℕ) (h : ChunkHeader)
    → 4 ≤ length array
    → stream_identifier (record h { additional = take 4 array ++ rest })
      ≡ stream_identifier (record h { additional = array })
unfolding stream_identifier
same_front [] rest h le = absurd (omega arith)
same_front (x ∷ []) rest h le = absurd (omega arith)
same_front (x ∷ y ∷ []) rest h le = absurd (omega arith)
same_front (x ∷ y ∷ z ∷ []) rest h le = absurd (omega arith)
same_front (x ∷ y ∷ z ∷ w ∷ array) rest h le = refl

module _ (name : List ℕ) (h : ChunkHeader) (text : IsText name) (short : length name ≤ 118)
    (array : 4 ≤ length h.additional) where
  copied_front :
      take (length name + 1) (strncpy (raw_filename h) name maximum_virtual_filename_length)
      ≡ name ++ 0 ∷ []
  unfolding strncpy
  copied_front =
      rw
        (
          c_string-text name text,
          take_all 119 name (omega arith),
          one_zero (119 - length name) (omega arith),
        )
        (ap (take (length name + 1)) (append_assoc name (0 ∷ zeros) rest)
          ∙ take-end name (zeros ++ rest))
    where
      zeros : List ℕ
      zeros = replicate (119 - length name - 1) 0

      rest : List ℕ
      rest = drop 119 (raw_filename h)

  abbrev written : List ℕ
  written = strncpy (raw_filename h) name maximum_virtual_filename_length

  -- What follows the end of the name.
  abbrev behind : List ℕ
  behind =
      let n = sub32 maximum_virtual_filename_length (length name + 1) in
      replicate n 0 ++ drop (length name + 1 + n) written

  cleared_front :
      clear_at (length name + 1) (sub32 maximum_virtual_filename_length (length name + 1)) written
      ≡ name ++ 0 ∷ behind
  unfolding clear_at
  cleared_front =
      append_assoc (take (length name + 1) written)
        (replicate (sub32 maximum_virtual_filename_length (length name + 1)) 0) _
      ∙ ap (λ (xs : List ℕ). xs ++ behind) copied_front
      ∙ append_assoc name (0 ∷ []) behind

  read_back : (unset : List ℕ) → virtual_filename unset (named name h) ≡ name
  unfolding virtual_filename
  read_back unset =
      ap (λ (xs : List ℕ). c_string (take 119 xs ++ unset))
        (drop-append 4 (take 4 h.additional) _ (omega (arith, length-take 4 h.additional))
          ∙ cleared_front)
      ∙ c_string-take 119 name behind unset text (omega arith)

-- A name of at most 118 bytes, none of them zero, that is set on a start chunk's header is read back as
-- it was, and the identifier of the stream stays.
pub virtual_filename-set_virtual_filename :
    (unset name : List ℕ) (h : ChunkHeader)
    → IsText name
    → length name ≤ 118
    → 4 ≤ length h.additional
    → (h' : ChunkHeader) × (set_virtual_filename name h ≡ some h')
      × (virtual_filename unset h' ≡ name)
      × (stream_identifier h' ≡ stream_identifier h)
virtual_filename-set_virtual_filename unset name h text short array = (
  named name h,
  set_virtual_filename-some name h short,
  read_back name h text short array unset,
  same_front h.additional _ h array,
)
