-- ===== src/Gateway/Auth/Der.antt =====
-- `derToRaw` and `rawToDer` of packages/gateway/src/auth/jws.ts: two forms of an ECDSA signature over
-- P-256. Every refusal is `signature-length`, here told apart.
pub mod RoundTrip
use stellar_onramp.Base.{
  ℕ, zero, suc, ◌+◌, ◌-◌, Bool, true, false, not, ◌&&◌, ◌||◌, List, [], ◌∷◌, ◌++◌, Option, none,
  some, ltb, leb, ◌==◌, length, replicate, take, if◌then◌else◌, Result, ok, err, ◌>>=◌, ◌>>◌, guard,
  or_throw, Bytes,
}

pub data DerError : Type 0 where
  total_length no_sequence long_form wrong_length no_integer integer_length past_end : DerError
  magnitude trailing zero_scalar : DerError

-- The first n bytes and the rest; none where there are fewer.
unfoldable pub split_at? : ℕ → Bytes → Option (Bytes × Bytes)
split_at? zero bytes = some ([], bytes)
split_at? (suc n) [] = none
split_at? (suc n) (b ∷ bytes) =
    let rest = split_at? n bytes in
    elim rest [ none ↦ none | some (first, others) ↦ some (b ∷ first, others) ]

-- `while (start < end - 1 && der[start] === 0x00) start += 1`
unfoldable pub strip : Bytes → Bytes
strip [] = []
strip (b ∷ []) = b ∷ []
strip (b ∷ c ∷ bytes) = let rest = strip (c ∷ bytes) in if b == 0 then rest else b ∷ c ∷ bytes

-- A magnitude at the end of 32 bytes.
abbrev pub place : Bytes → Bytes
place mag = replicate (32 - length mag) 0 ++ mag

-- One pass of the loop: the bytes of the integer, and what follows it.
unfoldable pub read_integer : Bytes → Result DerError (Bytes × Bytes)
read_integer (tag ∷ size ∷ bytes) = do
  guard (tag == 2) no_integer
  guard (ltb size 128 && (not (size == 0) && leb size 33)) integer_length
  parts ← or_throw (split_at? size bytes) past_end
  guard (leb (length (strip parts.0)) 32) magnitude
  ok (place (strip parts.0), parts.1)
read_integer _ = err no_integer

unfoldable pub read_sequence : Bytes → Result DerError Bytes
read_sequence (tag ∷ size ∷ bytes) = do
  guard (tag == 48) no_sequence
  guard (ltb size 128) long_form
  guard (size + 2 == length bytes + 2) wrong_length
  first ← read_integer bytes
  second ← read_integer first.1
  guard (length second.1 == 0) trailing
  ok (first.0 ++ second.0)
read_sequence _ = err total_length

unfoldable pub der_to_raw : Bytes → Result DerError Bytes
der_to_raw der = do
  guard (leb 8 (length der) && leb (length der) 72) total_length
  read_sequence der

-- `v[0] >= 0x80`
abbrev pub starts_high : Bytes → Bool
starts_high [] = false
starts_high (b ∷ bytes) = leb 128 b

abbrev pub is_zero : Bytes → Bool
is_zero (b ∷ []) = b == 0
is_zero _ = false

abbrev pub signed_body : Bytes → Bytes
signed_body v = if starts_high v then 0 ∷ v else v

unfoldable pub integer : Bytes → Result DerError Bytes
integer half = do
  guard (not (is_zero (strip half))) zero_scalar
  ok (2 ∷ length (signed_body (strip half)) ∷ signed_body (strip half))

abbrev pub drop : ℕ → Bytes → Bytes
drop zero bytes = bytes
drop (suc n) [] = []
drop (suc n) (b ∷ bytes) = drop n bytes

unfoldable pub raw_to_der : Bytes → Result DerError Bytes
raw_to_der raw = do
  first ← integer (take 32 raw)
  second ← integer (take 32 (drop 32 raw))
  ok (48 ∷ length (first ++ second) ∷ (first ++ second))
