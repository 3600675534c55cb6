-- ===== src/Header/Crc.antt =====
-- The CRC of a header: its table, and what is checked after an update.
use Prim.Native.Nat.{bit_xor, bit_or}
use inecontainer.Prelude.{
  ◌+◌, ◌/◌, ℕ, zero, suc, ◌*◌, ◌%◌, ◌<◌, ◌≡◌, refl, ◌∙◌, true, List, [], ◌∷◌, leb, ==_iff,
  if◌then◌else◌, get_or, arith,
}
use inecontainer.Prelude.Words.{◌<<<◌}
use inecontainer.Prelude.Bits.{field-bit_or}
use inecontainer.Prelude.Range.{agree_below, agree_below_lem}
use inecontainer.Header.{
  ChunkHeader, IsBytes, set_crc, calculate_crc, initialize_crc, update_crc, check_crc,
}
use inecontainer.Header.Tables.{crc_table}
use inecontainer.Header.Fields.{crc-set_crc}

-- Division by the polynomial x^16 + x^15 + x^2 + 1, bit by bit.
abbrev pub shift_bit : ℕ → ℕ
shift_bit x = if leb 32768 x then bit_xor (x * 2 % 65536) 0x8005 else x * 2

abbrev pub shift_bits : ℕ → ℕ → ℕ
shift_bits zero x = x
shift_bits (suc n) x = shift_bits n (shift_bit x)

-- Each entry of the table is the remainder that eight bit steps leave of its index as high byte.
pub crc_table_lem : (i : ℕ) → i < 256 → get_or crc_table i 0 ≡ shift_bits 8 (i * 256)
crc_table_lem i lt = agree_below_lem _ _ 256 checked i lt
  where
    checked : agree_below 256 (λ i. get_or crc_table i 0) (λ i. shift_bits 8 (i * 256)) ≡ true
    checked = unfold agree_below crc_table in refl

calculate_crc-lt : (ds : List ℕ) (c : ℕ) → c < 65536 → calculate_crc c ds < 65536
unfolding calculate_crc
calculate_crc-lt [] c lt = lt
calculate_crc-lt (d ∷ ds) c lt = calculate_crc-lt ds _ (omega arith)

-- Long division of the bytes by the polynomial: a byte joins at the low end, and the multiple that
-- takes off the high byte is subtracted; 16 bits are left.
abbrev pub divide_byte : ℕ → ℕ → ℕ
divide_byte r d = bit_xor (d + r * 256) (shift_bits 8 (r / 256 * 256)) % 65536

abbrev pub divide : ℕ → List ℕ → ℕ
divide r [] = r
divide r (d ∷ ds) = divide (divide_byte r d) ds

abbrev pub AreBytes : List ℕ → Type 0
AreBytes [] = Unit
AreBytes (d ∷ ds) = (d < 256) × AreBytes ds

pub accepted : (h : ChunkHeader) → IsBytes h → check_crc (update_crc h) ≡ true
unfolding check_crc update_crc
accepted h v = (==_iff _ _).1 (crc-set_crc (initialize_crc h) h ∙ whole ∙ same)
  where
    start_small : bit_or (h.b1 <<< 8) h.b0 < 65536
    start_small = rw (field-bit_or 8 h.b0 h.b1 v.byte0) (omega (arith, v.byte0, v.byte1))

    whole : initialize_crc h % 65536 ≡ initialize_crc h
    whole =
        unfold initialize_crc in
        omega (arith, calculate_crc-lt h.additional (bit_or (h.b1 <<< 8) h.b0) start_small)

    same : initialize_crc h ≡ initialize_crc (set_crc (initialize_crc h) h)
    same = unfold initialize_crc set_crc in refl
