-- ===== src/Codec/Varint.antt =====
-- Varints: what PutUvarint writes, and that ReadUvarint reads it back.
use esphome_apiclient.Common.{ℕ, zero, suc, ◌+◌, ◌*◌, ◌/◌, ◌%◌, ◌^◌, ◌<◌, ◌≤◌, ◌≡◌, ap, ◌∙◌}
use esphome_apiclient.Common.{
  List, [], ◌∷◌, ◌++◌, length, ltb, arith, some, All, Bool-cases, inl, inr, ltb→lt, ltb→ge,
}
use esphome_apiclient.Common.{if◌then◌else◌}
use esphome_apiclient.Stream.{ok, IoError, buffer, buffer_byte}
use esphome_apiclient.Codec.{put_uvarint, continued, uvarint_loop, read_uvarint}
use native.Mathlib.Numerals.{towards_suc}
use native.Mathlib.Nat.{div-add-mod}

-- The bytes of a varint, for a value below 128 ^ room: 7 bits each, the lowest group first.
unfoldable pub varint : ℕ → ℕ → List ℕ
varint zero x = []
varint (suc room) x =
    let rest = varint room (x / 128) in if ltb x 128 then x ∷ [] else continued x ∷ rest

-- With room for it PutUvarint does not panic.
pub put_uvarint-varint :
    (room x : ℕ) → x < 128 ^ suc room → put_uvarint (suc room) x ≡ some (varint (suc room) x)
unfolding put_uvarint varint
put_uvarint-varint zero x h = ground arith
put_uvarint-varint (suc room) x h = ground (arith, put_uvarint-varint room (x / 128))

pub length-varint :
    (room x : ℕ)
    → x < 128 ^ suc room
    → (1 ≤ length (varint (suc room) x)) × (length (varint (suc room) x) ≤ suc room)
unfolding varint
length-varint zero x h = ground arith
length-varint (suc room) x h = ground (arith, length-varint room (x / 128))

pub varint-bytes : (room x : ℕ) → All (λ b. b < 256) (varint room x)
unfolding varint
varint-bytes zero x = tt
varint-bytes (suc room) x = ground (arith, varint-bytes room (x / 128))

shift_seven : (s : ℕ) → 2 ^ (s + 7) ≡ 128 * 2 ^ s
shift_seven s = simp towards_suc (omega arith)

-- The lowest group of `x` and the groups above it, both shifted by `s`.
low_and_high : (x s : ℕ) → x * 2 ^ s ≡ x % 128 * 2 ^ s + x / 128 * 2 ^ (s + 7)
low_and_high x s = omega (
  arith,
  ap (λ (t : ℕ). t * 2 ^ s) (div-add-mod x 128),
  ap (λ (t : ℕ). x / 128 * t) (shift_seven s),
)

-- One round on a last byte, and on a byte with the top bit set.
last_round :
    (rounds i x acc s : ℕ) (rest : List ℕ) (e : IoError)
    → x < 128
    → (i ≡ 9 → x ≤ 1)
    → uvarint_loop buffer (suc rounds) i acc s (x ∷ rest, e) ≡ (ok (acc + x * 2 ^ s), (rest, e))
unfolding uvarint_loop buffer_byte
last_round rounds i x acc s rest e h small = ground arith

inner_round :
    (rounds i x acc s : ℕ) (rest : List ℕ) (e : IoError)
    → uvarint_loop buffer (suc rounds) i acc s (continued x ∷ rest, e)
      ≡ uvarint_loop buffer rounds (i + 1) (acc + x % 128 * 2 ^ s) (s + 7) (rest, e)
unfolding uvarint_loop buffer_byte
inner_round rounds i x acc s rest e = ground arith

varint_last : (room x : ℕ) → x < 128 → varint (suc room) x ≡ x ∷ []
unfolding varint
varint_last room x h = ground arith

varint_inner : (room x : ℕ) → 128 ≤ x → varint (suc room) x ≡ continued x ∷ varint room (x / 128)
unfolding varint
varint_inner room x h = ground arith

-- The tenth byte of a value that fits 64 bits is 0 or 1.
tenth_byte : (i x s : ℕ) → s ≡ 7 * i → x * 2 ^ s < 2 ^ 64 → i ≡ 9 → x ≤ 1
tenth_byte i x s hs fits hi =
    let at_63 : s ≡ 63 = omega arith in
    let fits' : x * 2 ^ 63 < 2 ^ 64 = rw at_63 at fits in omega arith

-- In round `i` the shift is 7 * i, and the value fits 64 bits from there on.
loop-varint :
    (room rounds i x acc s : ℕ) (rest : List ℕ) (e : IoError)
    → s ≡ 7 * i
    → room ≤ rounds
    → x < 128 ^ suc room
    → x * 2 ^ s < 2 ^ 64
    → uvarint_loop buffer (suc rounds) i acc s (varint (suc room) x ++ rest, e)
      ≡ (ok (acc + x * 2 ^ s), (rest, e))
loop-varint zero rounds i x acc s rest e hs hr hx fits =
    let small : x < 128 = omega arith in
    rw (varint_last zero x small)
      (last_round rounds i x acc s rest e small (tenth_byte i x s hs fits))
loop-varint (suc room) zero i x acc s rest e hs hr hx fits = absurd (omega arith)
loop-varint (suc room) (suc rounds) i x acc s rest e hs hr hx fits = elim (Bool-cases (ltb x 128)) [
  | inl small ↦
      rw (varint_last (suc room) x (ltb→lt _ _ small))
        (last_round (suc rounds) i x acc s rest e (ltb→lt _ _ small) (tenth_byte i x s hs fits))
  | inr large ↦
      rw (varint_inner (suc room) x (ltb→ge _ _ large), inner_round)
        (loop-varint room rounds (i + 1) (x / 128) (acc + x % 128 * 2 ^ s) (s + 7) rest e
            (omega arith) (omega arith) (omega arith) (omega (arith, low_and_high x s))
          ∙ ap (λ v. (ok v, (rest, e))) (omega (arith, low_and_high x s)))
]

-- ReadUvarint reads back the varint of a uint64 and leaves what follows it.
pub read_uvarint-varint :
    (x : ℕ) (rest : List ℕ) (e : IoError)
    → x < 2 ^ 64
    → read_uvarint buffer (varint 10 x ++ rest, e) ≡ (ok x, (rest, e))
unfolding read_uvarint
read_uvarint-varint x rest e h =
    loop-varint 9 9 0 x 0 0 rest e (omega arith) (omega arith) (omega arith) (omega arith)
    ∙ ap (λ v. (ok v, (rest, e))) (omega arith)
