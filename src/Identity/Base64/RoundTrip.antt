-- ===== src/Identity/Base64/RoundTrip.antt =====
-- The codec of packages/identity/src/status-list.ts read back: what `base64urlEncode` writes,
-- `base64urlDecode` reads.
use mathlib.Core.List.{append_assoc, append-nil}
use stellar_onramp.Base.{
  ℕ, ◌+◌, ◌*◌, ◌/◌, ◌%◌, ◌^◌, ◌<◌, ◌≡◌, ◌≢◌, refl, sym, ap, ◌∙◌, false, not, ◌&&◌, [], ◌∷◌, ◌++◌,
  arith, ltb, ◌==◌, length, ok, AreBytes, Bytes,
}
use stellar_onramp.Identity.Base64.{
  Decoder, run, decoded_length, finish, base64url_decode, base64url_encode, multibase_decode,
}
use stellar_onramp.Identity.Base64.Groups.{
  at_group, run_two, run_three, run_four, left_over, shift_in,
}

-- The state that the loop ends in when it has read `bs` after `out`, with no bits left over.
pub record Reads (out bs : Bytes) (d : Decoder) : Type 0 where
  pub written : d.out ≡ out ++ bs
  pub clean : (ltb 0 d.bits && not (d.acc % 2 ^ d.bits == 0)) ≡ false

one_byte : (a : ℕ) → a < 256 → a / 4 * 4 + a * 16 % 64 / 16 ≡ a
one_byte a h = omega arith

two_bytes :
    (a b : ℕ)
    → a < 256
    → b < 256
    → (a / 4 * 4 + (a * 16 + b / 16) % 64 / 16 ≡ a)
      × ((a * 16 + b / 16) % 64 % 16 * 16 + b * 4 % 64 / 4 ≡ b)
two_bytes a b ha hb = omega arith

three_bytes :
    (a b c : ℕ)
    → a < 256
    → b < 256
    → c < 256
    → let n = a * 65536 + b * 256 + c in
      (n / 2 ^ 18 % 64 * 4 + n / 2 ^ 12 % 64 / 16 ≡ a)
      × (n / 2 ^ 12 % 64 % 16 * 16 + n / 2 ^ 6 % 64 / 4 ≡ b)
      × (n / 2 ^ 6 % 64 % 4 * 64 + n % 64 ≡ c)
three_bytes a b c ha hb hc = omega arith

pub run-base64url_encode :
    (bs : Bytes) (acc : ℕ) (out : Bytes)
    → AreBytes bs
    → (d : Decoder) × (run (at_group acc out) (base64url_encode bs) ≡ ok d) × Reads out bs d
unfolding base64url_encode
run-base64url_encode [] acc out h =
    (at_group acc out, unfold run in refl, record { written = sym (append-nil out); clean = refl })
run-base64url_encode (a ∷ []) acc out h = (
  _,
  run_two acc out (a / 4) (a * 16 % 64) (omega arith) (omega arith),
  record {
    written = ap (λ x. out ++ x ∷ []) (one_byte a h.0);
    clean = ground (arith, left_over (shift_in acc (a / 4)) (a * 16 % 64));
  },
)
run-base64url_encode (a ∷ b ∷ []) acc out h =
    let v = a / 4 in
    let w = (a * 16 + b / 16) % 64 in
    let (first, second) = two_bytes a b h.0 h.1.0 in
    (
      _,
      run_three acc out v w (b * 4 % 64) (omega arith) (omega arith) (omega arith),
      record {
        written = cc (first, second);
        clean = ground (arith, left_over (shift_in (shift_in acc v) w) (b * 4 % 64));
      },
    )
run-base64url_encode (a ∷ b ∷ c ∷ rest) acc out h =
    let n = a * 65536 + b * 256 + c in
    let (first, second, third) = three_bytes a b c h.0 h.1.0 h.1.1.0 in
    let (d, run_rest, reads) = run-base64url_encode rest (word n) (out ++ a ∷ b ∷ c ∷ []) h.1.1.1 in
    (
      d,
      run_four acc out (n / 2 ^ 18 % 64) (n / 2 ^ 12 % 64) (n / 2 ^ 6 % 64) (n % 64)
            (base64url_encode rest) (omega arith) (omega arith) (omega arith) (omega arith)
          ∙ rw (first, second, third) run_rest,
      record {
        written = reads.written ∙ append_assoc out (a ∷ b ∷ c ∷ []) rest;
        clean = reads.clean;
      },
    )
  where
    word : ℕ → ℕ
    word n =
        shift_in
          (shift_in (shift_in (shift_in acc (n / 2 ^ 18 % 64)) (n / 2 ^ 12 % 64)) (n / 2 ^ 6 % 64))
          (n % 64)

-- The array that the decoder allocates has the room that the bytes need.
pub decoded_length-encode : (bs : Bytes) → decoded_length (length (base64url_encode bs)) ≡ length bs
unfolding decoded_length base64url_encode
decoded_length-encode [] = refl
decoded_length-encode (a ∷ []) = refl
decoded_length-encode (a ∷ b ∷ []) = refl
decoded_length-encode (a ∷ b ∷ c ∷ rest) = ground (arith, decoded_length-encode rest)

encode-length_mod : (bs : Bytes) → length (base64url_encode bs) % 4 ≢ 1
unfolding base64url_encode
encode-length_mod [] = omega arith
encode-length_mod (a ∷ []) = omega arith
encode-length_mod (a ∷ b ∷ []) = omega arith
encode-length_mod (a ∷ b ∷ c ∷ rest) = omega (arith, encode-length_mod rest)

-- `base64urlDecode(base64urlEncode(bytes))` is `bytes`, for every array of bytes.
pub decode-encode : (bs : Bytes) → AreBytes bs → base64url_decode (base64url_encode bs) ≡ ok bs
unfolding base64url_decode finish
decode-encode bs h =
    let (d, ran, reads) = run-base64url_encode bs 0 [] h in
    rw ran
      (ground (arith, encode-length_mod bs, decoded_length-encode bs, reads.written, reads.clean))

-- `multibaseDecode("u" + base64urlEncode(bytes))` is `bytes`.
pub multibase_decode-encode :
    (bs : Bytes) → AreBytes bs → multibase_decode (b'u' ∷ base64url_encode bs) ≡ ok bs
unfolding multibase_decode
multibase_decode-encode bs h = decode-encode bs h
