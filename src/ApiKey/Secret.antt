-- ===== src/ApiKey/Secret.antt =====
-- The comparison of hashes in `constantTimeEqual`, and what the verification of a secret proves.
use Prim.Native.Nat.{bit_or, bit_xor, bit_or-bitwise, bit_xor-bitwise, digits, differ, max}
use reccado.Prelude.{
  ℕ, zero, suc, ◌/◌, ◌%◌, ◌≤◌, ◌≡◌, ◌↔◌, refl, sym, ◌∙◌, true, some, [], ◌∷◌, inl, inr, arith, ◌==◌,
  Bool-cases, Option-cases, length,
}
use reccado.Text.{Text, ===_iff}
use reccado.ApiKey.{
  Platform, ApiKeyRecord, KeyEnvironment, test, live, ParsedKey, same_environment, differences,
  constant_time_equal, parse_api_key, hash_api_key, verify_api_key_secret,
}

or_digits-zero : (n a b : ℕ) → a ≤ n → digits (λ b. b) max n a b ≡ 0 → (a ≡ 0) × (b ≡ 0)
or_digits-zero zero a b h e = omega arith
or_digits-zero (suc n) zero b h e = omega arith
or_digits-zero (suc n) (suc a) b h e =
    omega (arith, or_digits-zero n (suc a / 2) (b / 2) (omega arith) (omega arith))

bit_or-zero : (a b : ℕ) → bit_or a b ≡ 0 → (a ≡ 0) × (b ≡ 0)
bit_or-zero a b e = or_digits-zero a a b (omega arith) (sym (bit_or-bitwise a b) ∙ e)

differ-zero : (x y : ℕ) → differ x y ≡ 0 → x ≡ y
differ-zero zero y e = omega arith
differ-zero (suc x) zero e = omega arith
differ-zero (suc x) (suc y) e = omega (arith, differ-zero x y e)

differ_self : (x : ℕ) → differ x x ≡ 0
differ_self zero = refl
differ_self (suc x) = differ_self x

xor_digits-zero : (n a b : ℕ) → a ≤ n → digits (λ b. b) differ n a b ≡ 0 → a ≡ b
xor_digits-zero zero a b h e = omega arith
xor_digits-zero (suc n) zero b h e = omega arith
xor_digits-zero (suc n) (suc a) b h e = omega (
  arith,
  xor_digits-zero n (suc a / 2) (b / 2) (omega arith) (omega arith),
  differ-zero (suc a % 2) (b % 2) (omega arith),
)

xor_digits_self : (n a : ℕ) → a ≤ n → digits (λ b. b) differ n a a ≡ 0
xor_digits_self zero a h = omega arith
xor_digits_self (suc n) zero h = refl
xor_digits_self (suc n) (suc a) h =
    omega (arith, xor_digits_self n (suc a / 2) (omega arith), differ_self (suc a % 2))

bit_xor-zero : (a b : ℕ) → bit_xor a b ≡ 0 → a ≡ b
bit_xor-zero a b e = xor_digits-zero a a b (omega arith) (sym (bit_xor-bitwise a b) ∙ e)

bit_xor_self : (a : ℕ) → bit_xor a a ≡ 0
bit_xor_self a = bit_xor-bitwise a a ∙ xor_digits_self a a (omega arith)

differences-zero :
    (r : ℕ) (s t : Text) → differences r s t ≡ 0 → (r ≡ 0) × (length s ≡ length t → s ≡ t)
unfolding differences
differences-zero r [] [] e = (e, λ _. refl)
differences-zero r [] (b ∷ t) e = (e, λ l. absurd (omega arith))
differences-zero r (a ∷ s) [] e = (e, λ l. absurd (omega arith))
differences-zero r (a ∷ s) (b ∷ t) e =
    let (now, later) = differences-zero (bit_or r (bit_xor a b)) s t e in
    let (r_zero, x_zero) = bit_or-zero r (bit_xor a b) now in
    (r_zero, λ l. cc (bit_xor-zero a b x_zero, later (omega arith)))

differences_self : (s : Text) → differences 0 s s ≡ 0
unfolding differences
differences_self [] = refl
differences_self (a ∷ s) = rw (bit_xor_self a) (differences_self s)

-- The comparison that visits every character answers as equality does, also for texts of unequal
-- length.
pub constant_time_equal_iff : (a b : Text) → (constant_time_equal a b ≡ true) ↔ (a ≡ b)
unfolding constant_time_equal
constant_time_equal_iff a b = (
  λ h. elim (Bool-cases (length a == length b)) [
    | inl same ↦ (differences-zero 0 a b (ground arith)).1 (ground arith)
    | inr unequal ↦
        let z : differences (bit_xor (length a) (length b)) a b ≡ 0 = ground arith in
        let e : length a ≡ length b =
          bit_xor-zero _ _ (differences-zero (bit_xor (length a) (length b)) a b z).0 in
        absurd (ground arith)
  ],
  λ e. rw e (ground (arith, differences_self b)),
)

same_environment_iff : (a b : KeyEnvironment) → (same_environment a b ≡ true) ↔ (a ≡ b)
same_environment_iff test test = (λ _. refl, λ _. refl)
same_environment_iff test live = (λ h. cc, λ h. cc)
same_environment_iff live test = (λ h. cc, λ h. cc)
same_environment_iff live live = (λ _. refl, λ _. refl)

module _ (p : Platform) (pepper candidate : Text) (key : ApiKeyRecord) where
  -- A candidate is a secret of the key: it parses to the key's own environment and id, and the
  -- peppered hash of its secret is the stored one.
  pub record Proves : Type 0 where
    pub parsed : ParsedKey
    pub parses : parse_api_key candidate ≡ some parsed
    pub environment : parsed.environment ≡ key.environment
    pub key_id : parsed.key_id ≡ key.key_id
    pub hash : hash_api_key p pepper key.key_id parsed.secret ≡ key.key_hash

  -- Verification of a secret accepts exactly the candidates that prove it.
  pub verify_api_key_secret_iff : (verify_api_key_secret p pepper candidate key ≡ true) ↔ Proves
  unfolding verify_api_key_secret
  verify_api_key_secret_iff = (there, back)
    where
      there : verify_api_key_secret p pepper candidate key ≡ true → Proves
      there h = elim (Option-cases (parse_api_key candidate)) [
        | inl e ↦ absurd (ground arith)
        | inr (k, e) ↦ record {
          parsed = k;
          parses = e;
          environment = (same_environment_iff _ _).0 (ground arith);
          key_id = (===_iff _ _).0 (ground arith);
          hash = (constant_time_equal_iff _ _).0 (ground arith);
        }
      ]

      back : Proves → verify_api_key_secret p pepper candidate key ≡ true
      back v = ground (
        arith,
        v.parses,
        (same_environment_iff v.parsed.environment key.environment).1 v.environment,
        (===_iff v.parsed.key_id key.key_id).1 v.key_id,
        (constant_time_equal_iff (hash_api_key p pepper key.key_id v.parsed.secret) key.key_hash).1
            v.hash,
      )
