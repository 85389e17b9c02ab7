-- ===== src/World/Heap.antt =====
-- A heap of objects as a function of their references.
use opentelemetry_auto_instr.Common.{ℕ, ◌≡◌, ◌≢◌, ◌==◌, if◌then◌else◌, arith}

module _ {ℓ} {A : Type ℓ} where
  abbrev pub update : (ℕ → A) → ℕ → A → ℕ → A
  update h r a q = if r == q then a else h q

  pub update_self : (h : ℕ → A) (r : ℕ) (a : A) → update h r a r ≡ a
  update_self h r a = ground arith

  pub update_other : (h : ℕ → A) (r q : ℕ) (a : A) → r ≢ q → update h r a q ≡ h q
  update_other h r q a ne = ground arith
