-- ===== src/Bytes/Split.antt =====
-- What a read of a range gives of a buffer in two parts.
use tanix.Bytes.{Bytes}
use tanix.Bytes.Copy.{drop_past}
use tanix.Prelude.{
  ℕ, zero, suc, ◌+◌, ◌-◌, ◌≡◌, ◌≤◌, refl, ap, ◌∙◌, [], ◌∷◌, ◌++◌, arith, length, take, drop,
  length-drop,
}

pub length-append : (a b : Bytes) → length (a ++ b) ≡ length a + length b
length-append [] b = omega arith
length-append (x ∷ a) b = omega (arith, length-append a b)

drop-nil : (n : ℕ) → drop {A = ℕ} n [] ≡ []
drop-nil zero = refl
drop-nil (suc n) = refl

pub take-append : (n : ℕ) (a b : Bytes) → take n (a ++ b) ≡ take n a ++ take (n - length a) b
take-append n [] b = let e : n - 0 ≡ n = omega arith in rw e (nil n)
  where
    nil : (k : ℕ) → take k b ≡ take {A = ℕ} k [] ++ take k b
    nil zero = refl
    nil (suc k) = refl
take-append zero (x ∷ a) b = let e : 0 - suc (length a) ≡ 0 = omega arith in rw e refl
take-append (suc n) (x ∷ a) b =
    let e : suc n - suc (length a) ≡ n - length a = omega arith in
    rw e (ap (λ (c : Bytes). x ∷ c) (take-append n a b))

pub drop-append : (n : ℕ) (a b : Bytes) → drop n (a ++ b) ≡ drop n a ++ drop (n - length a) b
drop-append n [] b = let e : n - 0 ≡ n = omega arith in rw (e, drop-nil n) refl
drop-append zero (x ∷ a) b = let e : 0 - suc (length a) ≡ 0 = omega arith in rw e refl
drop-append (suc n) (x ∷ a) b =
    let e : suc n - suc (length a) ≡ n - length a = omega arith in rw e (drop-append n a b)

-- `n` bytes from `k` on.
pub range-append :
    (n k : ℕ) (a b : Bytes)
    → take n (drop k (a ++ b))
      ≡ take n (drop k a) ++ take (n - (length a - k)) (drop (k - length a) b)
range-append n k a b =
    ap (λ (c : Bytes). take n c) (drop-append k a b)
    ∙ (take-append n (drop k a) (drop (k - length a) b)
        ∙ ap (λ (m : ℕ). take n (drop k a) ++ take (n - m) (drop (k - length a) b))
            (length-drop k a))

-- Behind the first part only the second is left.
pub drop-append_past :
    (k : ℕ) (a b : Bytes) → length a ≤ k → drop k (a ++ b) ≡ drop (k - length a) b
drop-append_past k a b h =
    drop-append k a b ∙ ap (λ (c : Bytes). c ++ drop (k - length a) b) (drop_past k a h)
