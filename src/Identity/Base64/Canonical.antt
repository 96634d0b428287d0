-- ===== src/Identity/Base64/Canonical.antt =====
-- The decoder of packages/identity/src/status-list.ts accepts one spelling of each byte array.
use mathlib.Core.Path.{subst}
use mathlib.Core.List.{append_assoc, append-nil}
use stellar_onramp.Base.{
  ℕ, ◌+◌, ◌*◌, ◌/◌, ◌%◌, ◌^◌, ◌<◌, ◌≡◌, ◌≢◌, refl, sym, ap, ◌∙◌, true, false, not, ◌&&◌, [], ◌∷◌,
  ◌++◌, some, none, arith, ltb, ltb→lt, ◌==◌, length, List, map, All, ok, err, AreBytes, Bytes,
  Text, Option-cases, inl, inr, ok-injective, Result-cases, length-map, all_below, all_below_sound,
  Bool-cases,
}
use stellar_onramp.Identity.StatusListError.{StatusListError, length_miscount, not_base64url}
use stellar_onramp.Identity.Base64.{
  Decoder, run, step, push, decoded_length, finish, fresh, base64url_decode, base64url_encode,
  b64url_reverse, b64char,
}
use stellar_onramp.Identity.Base64.Groups.{
  at_group, after_two, after_three, run_two, run_three, run_four, left_over, shift_in,
}
use stellar_onramp.Identity.Base64.RoundTrip.{decoded_length-encode}

char_table :
    all_below 128
      (λ c. elim (b64url_reverse c) [ none ↦ true | some v ↦ ltb v 64 && b64char v == c ])
    ≡ true
unfolding all_below b64url_reverse b64char
char_table = refl

reverse_ascii : (c v : ℕ) → b64url_reverse c ≡ some v → c < 128 → (v < 64) × (b64char v ≡ c)
reverse_ascii c v e h = ground (arith, all_below_sound 128 _ c char_table, e)

-- A value comes from one character of the alphabet.
b64char-reverse : (c v : ℕ) → b64url_reverse c ≡ some v → (v < 64) × (b64char v ≡ c)
unfolding b64url_reverse
b64char-reverse c v e = elim (Bool-cases (ltb c 128)) [
  | inl ascii ↦ reverse_ascii c v e (ltb→lt c 128 ascii)
  | inr high ↦ cc (high)
]

-- Every text that the loop reads to its end is a text of the alphabet.
read_char :
    (d : Decoder) (c : ℕ) (cs : Text) {e : Decoder}
    → run d (c ∷ cs) ≡ ok e
    → (v : ℕ) × (v < 64) × (c ≡ b64char v) × (run (push d v) cs ≡ ok e)
unfolding run step
read_char d c cs h = elim (Option-cases (b64url_reverse c)) [
  | inl bad ↦ ground (arith, bad)
  | inr (v, good) ↦
      let (small, char) = b64char-reverse c v good in (v, small, sym char, ground (arith, good))
]

abbrev IsSextet : ℕ → Type 0
IsSextet v = v < 64

read_text :
    (s : Text) (d : Decoder) {e : Decoder}
    → run d s ≡ ok e
    → (vs : List ℕ) × All IsSextet vs × (s ≡ map b64char vs)
read_text [] d h = ([], tt, refl)
read_text (c ∷ cs) d h =
    let (v, small, char, later) = read_char d c cs h in
    let (vs, smalls, chars) = read_text cs (push d v) later in
    (v ∷ vs, (small, smalls), cc (char, chars))

-- No bits are left over, or the bits left over are zero.
abbrev pub IsClean : Decoder → Type 0
IsClean d = (ltb 0 d.bits && not (d.acc % 2 ^ d.bits == 0)) ≡ false

-- `s` is the text of the bytes that the loop has written after `out`.
pub record Spells (out : Bytes) (d : Decoder) (s : Text) : Type 0 where
  pub bytes : Bytes
  pub are_bytes : AreBytes bytes
  pub written : d.out ≡ out ++ bytes
  pub spelled : base64url_encode bytes ≡ s

tail_two : (acc v w : ℕ) (out : Bytes) → IsClean (after_two acc out v w) → w % 16 ≡ 0
tail_two acc v w out h = ground (arith, left_over (shift_in acc v) w)

tail_three : (acc v w x : ℕ) (out : Bytes) → IsClean (after_three acc out v w x) → x % 4 ≡ 0
tail_three acc v w x out h = ground (arith, left_over (shift_in (shift_in acc v) w) x)

places_two :
    (v w : ℕ)
    → v < 64
    → w < 64
    → w % 16 ≡ 0
    → ((v * 4 + w / 16) / 4 ≡ v) × ((v * 4 + w / 16) * 16 % 64 ≡ w)
places_two v w hv hw t = omega arith

places_three :
    (v w x : ℕ)
    → v < 64
    → w < 64
    → x < 64
    → x % 4 ≡ 0
    → ((v * 4 + w / 16) / 4 ≡ v)
      × (((v * 4 + w / 16) * 16 + (w % 16 * 16 + x / 4) / 16) % 64 ≡ w)
      × ((w % 16 * 16 + x / 4) * 4 % 64 ≡ x)
places_three v w x hv hw hx t = omega arith

places_four :
    (v w x y : ℕ)
    → v < 64
    → w < 64
    → x < 64
    → y < 64
    → let n = (v * 4 + w / 16) * 65536 + (w % 16 * 16 + x / 4) * 256 + (x % 4 * 64 + y) in
      (n / 2 ^ 18 % 64 ≡ v) × (n / 2 ^ 12 % 64 ≡ w) × (n / 2 ^ 6 % 64 ≡ x) × (n % 64 ≡ y)
places_four v w x y hv hw hx hy = omega arith

run-nil : (d : Decoder) → run d [] ≡ ok d
unfolding run
run-nil d = refl

Spells-two :
    (acc : ℕ) (out : Bytes) (v w : ℕ)
    → v < 64
    → w < 64
    → let d = after_two acc out v w in IsClean d → Spells out d (b64char v ∷ b64char w ∷ [])
unfolding base64url_encode
Spells-two acc out v w hv hw clean = record {
  bytes = (v * 4 + w / 16) ∷ [];
  are_bytes = omega arith;
  written = refl;
  spelled = let (p, q) = places_two v w hv hw (tail_two acc v w out clean) in cc (p, q);
}

Spells-three :
    (acc : ℕ) (out : Bytes) (v w x : ℕ)
    → v < 64
    → w < 64
    → x < 64
    → let d = after_three acc out v w x in
      IsClean d → Spells out d (b64char v ∷ b64char w ∷ b64char x ∷ [])
unfolding base64url_encode
Spells-three acc out v w x hv hw hx clean = record {
  bytes = (v * 4 + w / 16) ∷ (w % 16 * 16 + x / 4) ∷ [];
  are_bytes = omega arith;
  written = refl;
  spelled =
      let (p, q, r) = places_three v w x hv hw hx (tail_three acc v w x out clean) in cc (p, q, r);
}

-- Induction over the sextets of the text, from the start of a group.
pub run-Spells :
    (vs : List ℕ) (acc : ℕ) (out : Bytes) {d : Decoder}
    → All IsSextet vs
    → length vs % 4 ≢ 1
    → run (at_group acc out) (map b64char vs) ≡ ok d
    → IsClean d
    → Spells out d (map b64char vs)
unfolding base64url_encode
run-Spells [] acc out h l r e =
    let p = ok-injective (sym (run-nil (at_group acc out)) ∙ r) in
    record {
      bytes = [];
      are_bytes = tt;
      written = sym (ap (λ d. d.out) p) ∙ sym (append-nil out);
      spelled = refl;
    }
run-Spells (v ∷ []) acc out h l r e = absurd (l refl)
run-Spells (v ∷ w ∷ []) acc out {d} h l r e =
    let p = ok-injective (sym (run_two acc out v w h.0 h.1.0) ∙ r) in
    subst (λ d. IsClean d → Spells out d (b64char v ∷ b64char w ∷ [])) p
      (Spells-two acc out v w h.0 h.1.0) e
run-Spells (v ∷ w ∷ x ∷ []) acc out h l r e =
    let p = ok-injective (sym (run_three acc out v w x h.0 h.1.0 h.1.1.0) ∙ r) in
    subst (λ d. IsClean d → Spells out d (b64char v ∷ b64char w ∷ b64char x ∷ [])) p
      (Spells-three acc out v w x h.0 h.1.0 h.1.1.0) e
run-Spells (v ∷ w ∷ x ∷ y ∷ rest) acc out h l r e =
    let later =
      run-Spells rest (shift_in (shift_in (shift_in (shift_in acc v) w) x) y)
        (out ++ (v * 4 + w / 16) ∷ (w % 16 * 16 + x / 4) ∷ (x % 4 * 64 + y) ∷ []) h.1.1.1.1
        (omega arith)
        (sym (run_four acc out v w x y (map b64char rest) h.0 h.1.0 h.1.1.0 h.1.1.1.0) ∙ r) e in
    record {
      bytes = (v * 4 + w / 16) ∷ (w % 16 * 16 + x / 4) ∷ (x % 4 * 64 + y) ∷ later.bytes;
      are_bytes = (omega arith, (omega arith, (omega arith, later.are_bytes)));
      written =
          later.written
          ∙ append_assoc out ((v * 4 + w / 16) ∷ (w % 16 * 16 + x / 4) ∷ (x % 4 * 64 + y) ∷ [])
              later.bytes;
      spelled =
          let (p, q, t, u) = places_four v w x y h.0 h.1.0 h.1.1.0 h.1.1.1.0 in
          cc (p, q, t, u, later.spelled);
    }

-- What a run to the end of the loop gives, whether `finish` then accepts it or not.
Spells-all :
    (s : Text) {d : Decoder} → length s % 4 ≢ 1 → run fresh s ≡ ok d → IsClean d → Spells [] d s
Spells-all s {d} l ran clean =
    let (vs, small, spelled) = read_text s fresh ran in
    let l' = λ (e : length vs % 4 ≡ 1). l (rw (spelled, length-map b64char vs) e) in
    subst (Spells [] d) (sym spelled) (run-Spells vs 0 [] small l' (rw spelled at ran) clean)

run-err : (s : Text) (d : Decoder) {e : StatusListError} → run d s ≡ err e → e ≡ not_base64url
unfolding run step
run-err [] d h = cc
run-err (c ∷ cs) d h = elim (Option-cases (b64url_reverse c)) [
  | inl bad ↦ ground (arith, bad)
  | inr (v, good) ↦ run-err cs (push d v) (ground (arith, good))
]

finish-eq-ok : (n : ℕ) (d : Decoder) {bs : Bytes} → finish n d ≡ ok bs → IsClean d × (d.out ≡ bs)
unfolding finish
finish-eq-ok n d h = ground arith

finish-miscount :
    (n : ℕ) (d : Decoder) → finish n d ≡ err length_miscount → IsClean d × (length d.out ≢ n)
unfolding finish
finish-miscount n d h = ground arith

-- `base64urlDecode` accepts one text only for each array of bytes: what it accepts is the text that
-- `base64urlEncode` writes for the result, and the result holds bytes.
pub decode-canonical :
    (s : Text) {bs : Bytes} → base64url_decode s ≡ ok bs → (base64url_encode bs ≡ s) × AreBytes bs
unfolding base64url_decode
decode-canonical s h = elim (Bool-cases (length s % 4 == 1)) [
  | inl bad ↦ absurd (ground (arith, bad))
  | inr fits ↦ elim (Result-cases (run fresh s)) [
    | inl (d, ran) ↦
        let (clean, out) = finish-eq-ok (decoded_length (length s)) d (ground (arith, fits, ran)) in
        let spells = Spells-all s (ground (arith, fits)) ran clean in
        let bytes = sym spells.written ∙ out in
        (rw bytes at spells.spelled, subst AreBytes bytes spells.are_bytes)
    | inr (e, ran) ↦ absurd (ground (arith, fits, ran))
  ]
]

-- The check on the length of the output, "internal: base64url length miscount", never fires.
pub decode-ne-miscount : (s : Text) → base64url_decode s ≢ err length_miscount
unfolding base64url_decode
decode-ne-miscount s h = elim (Bool-cases (length s % 4 == 1)) [
  | inl bad ↦ ground (arith, bad)
  | inr fits ↦ elim (Result-cases (run fresh s)) [
    | inl (d, ran) ↦
        let (clean, ne) =
          finish-miscount (decoded_length (length s)) d (ground (arith, fits, ran)) in
        let spells = Spells-all s (ground (arith, fits)) ran clean in
        ne (
          ap length spells.written
          ∙ sym (decoded_length-encode spells.bytes)
          ∙ ap (λ t. decoded_length (length t)) spells.spelled)
    | inr (e, ran) ↦ absurd (ground (arith, fits, ran, run-err s fresh ran))
  ]
]
