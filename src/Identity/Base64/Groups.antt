-- ===== src/Identity/Base64/Groups.antt =====
-- Four characters of base64url at a time, for the loop of `base64urlDecode`
-- (packages/identity/src/status-list.ts).
use mathlib.Core.List.{append_assoc}
use stellar_onramp.Base.{
  ℕ, ◌+◌, ◌*◌, ◌/◌, ◌%◌, ◌^◌, ◌<◌, ◌≡◌, refl, ap, ◌∙◌, true, [], ◌∷◌, ◌++◌, some, none, arith, ltb,
  ◌==◌, ok, Bytes, Text, all_below, all_below_sound,
}
use stellar_onramp.Identity.Base64.{b64url_reverse, b64char, Decoder, push, step, run}

reverse_table :
    all_below 64 (λ v. elim (b64url_reverse (b64char v)) [ none ↦ ltb 1 0 | some w ↦ v == w ])
    ≡ true
unfolding all_below b64url_reverse b64char
reverse_table = refl

-- A character of the alphabet has the value that stands at its place.
pub reverse-b64char : (v : ℕ) → v < 64 → b64url_reverse (b64char v) ≡ some v
reverse-b64char v h = ground (arith, all_below_sound 64 _ v reverse_table h)

pub step-b64char : (d : Decoder) (v : ℕ) → v < 64 → step d (b64char v) ≡ ok (push d v)
unfolding step
step-b64char d v h = rw (reverse-b64char v h)

pub run-b64char :
    (d : Decoder) (v : ℕ) (rest : Text) → v < 64 → run d (b64char v ∷ rest) ≡ run (push d v) rest
unfolding run
run-b64char d v rest h = rw (step-b64char d v h)

-- The loop, between two groups of four characters.
abbrev pub at_group : ℕ → Bytes → Decoder
at_group acc out = record { acc = acc; bits = 0; out = out }

-- `(acc << 6) | v` as the decoder keeps it.
abbrev pub shift_in : ℕ → ℕ → ℕ
shift_in acc v = (acc * 64 + v) % 2 ^ 32

pub byte_of_two :
    (acc v w : ℕ) → v < 64 → w < 64 → shift_in (shift_in acc v) w / 2 ^ 4 % 256 ≡ v * 4 + w / 16
byte_of_two acc v w hv hw = omega arith

pub byte_of_three :
    (acc v w x : ℕ)
    → w < 64
    → x < 64
    → shift_in (shift_in (shift_in acc v) w) x / 2 ^ 2 % 256 ≡ w % 16 * 16 + x / 4
byte_of_three acc v w x hw hx = omega arith

pub byte_of_four :
    (acc v w : ℕ) → v < 64 → w < 64 → shift_in (shift_in acc v) w / 2 ^ 0 % 256 ≡ v % 4 * 64 + w
byte_of_four acc v w hv hw = omega arith

-- Four sextets make three bytes, whatever the word held before.
pub push_four :
    (acc : ℕ) (out : Bytes) (v w x y : ℕ)
    → v < 64
    → w < 64
    → x < 64
    → y < 64
    → push (push (push (push (at_group acc out) v) w) x) y
      ≡ at_group
          (shift_in (shift_in (shift_in (shift_in acc v) w) x) y)
          (out ++ (v * 4 + w / 16) ∷ (w % 16 * 16 + x / 4) ∷ (x % 4 * 64 + y) ∷ [])
unfolding push
push_four acc out v w x y hv hw hx hy = simp (
  append_assoc,
  byte_of_two acc v w hv hw,
  byte_of_three acc v w x hw hx,
  byte_of_four (shift_in (shift_in acc v) w) x y hx hy,
)

pub run_four :
    (acc : ℕ) (out : Bytes) (v w x y : ℕ) (rest : Text)
    → v < 64
    → w < 64
    → x < 64
    → y < 64
    → run (at_group acc out) (b64char v ∷ b64char w ∷ b64char x ∷ b64char y ∷ rest)
      ≡ run
          (at_group
            (shift_in (shift_in (shift_in (shift_in acc v) w) x) y)
            (out ++ (v * 4 + w / 16) ∷ (w % 16 * 16 + x / 4) ∷ (x % 4 * 64 + y) ∷ []))
          rest
run_four acc out v w x y rest hv hw hx hy =
    run-b64char _ v _ hv
    ∙ run-b64char _ w _ hw
    ∙ run-b64char _ x _ hx
    ∙ run-b64char _ y rest hy
    ∙ ap (λ d. run d rest) (push_four acc out v w x y hv hw hx hy)

abbrev pub after_two : ℕ → Bytes → ℕ → ℕ → Decoder
after_two acc out v w = record {
  acc = shift_in (shift_in acc v) w;
  bits = 4;
  out = out ++ (v * 4 + w / 16) ∷ [];
}

abbrev pub after_three : ℕ → Bytes → ℕ → ℕ → ℕ → Decoder
after_three acc out v w x = record {
  acc = shift_in (shift_in (shift_in acc v) w) x;
  bits = 2;
  out = out ++ (v * 4 + w / 16) ∷ (w % 16 * 16 + x / 4) ∷ [];
}

-- Two characters left over make one byte, and three make two.
pub push_two :
    (acc : ℕ) (out : Bytes) (v w : ℕ)
    → v < 64
    → w < 64
    → push (push (at_group acc out) v) w ≡ after_two acc out v w
unfolding push
push_two acc out v w hv hw = simp (byte_of_two acc v w hv hw)

pub push_three :
    (acc : ℕ) (out : Bytes) (v w x : ℕ)
    → v < 64
    → w < 64
    → x < 64
    → push (push (push (at_group acc out) v) w) x ≡ after_three acc out v w x
unfolding push
push_three acc out v w x hv hw hx =
    simp (append_assoc, byte_of_two acc v w hv hw, byte_of_three acc v w x hw hx)

pub run_two :
    (acc : ℕ) (out : Bytes) (v w : ℕ)
    → v < 64
    → w < 64
    → run (at_group acc out) (b64char v ∷ b64char w ∷ []) ≡ ok (after_two acc out v w)
unfolding run
run_two acc out v w hv hw =
    let start = at_group acc out in
    run-b64char start v (b64char w ∷ []) hv
    ∙ run-b64char (push start v) w [] hw
    ∙ ap ok (push_two acc out v w hv hw)

pub run_three :
    (acc : ℕ) (out : Bytes) (v w x : ℕ)
    → v < 64
    → w < 64
    → x < 64
    → run (at_group acc out) (b64char v ∷ b64char w ∷ b64char x ∷ [])
      ≡ ok (after_three acc out v w x)
unfolding run
run_three acc out v w x hv hw hx =
    let start = at_group acc out in
    run-b64char start v (b64char w ∷ b64char x ∷ []) hv
    ∙ run-b64char (push start v) w (b64char x ∷ []) hw
    ∙ run-b64char (push (push start v) w) x [] hx
    ∙ ap ok (push_three acc out v w x hv hw hx)

-- The bits that are left over are those of the last character.
pub left_over : (acc v : ℕ) → (shift_in acc v % 2 ^ 4 ≡ v % 16) × (shift_in acc v % 2 ^ 2 ≡ v % 4)
left_over acc v = omega arith
