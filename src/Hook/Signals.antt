-- ===== src/Hook/Signals.antt =====
-- crates/hook/src/signal_compat.rs: the interposed `sigaction`. The real function is a parameter:
-- what it returns and what it leaves in `oldact`, `none` for a null pointer. The fields beside
-- the handler are of any type.
use hami_vnpu_core_hhy.Common.{
  ℕ, zero, suc, ◌≢◌, ◌≡◌, refl, ◌⊎◌, ◌&&◌, not, ◌==◌, Option, none, some, if◌then◌else◌, arith,
}
use hami_vnpu_core_hhy.Common.Words.{ℤ, pos, negsuc}

-- `SIG_DFL` and `SIG_IGN` of libc.
abbrev pub sig_dfl : ℕ
sig_dfl = 0

abbrev pub sig_ign : ℕ
sig_ign = 1

pub record Sigaction {ℓ} (R : Type ℓ) : Type ℓ where
  pub handler : ℕ
  pub rest : R

module _ {ℓ} {R : Type ℓ} where
  abbrev hide_handler : Sigaction R → Sigaction R
  hide_handler old =
      if not (old.handler == sig_dfl) && not (old.handler == sig_ign)
      then record old { handler = sig_dfl }
      else old

  unfoldable pub sigaction : ℤ → Option (Sigaction R) → ℤ × Option (Sigaction R)
  sigaction (pos zero) (some old) = (pos zero, some (hide_handler old))
  sigaction (pos zero) none = (pos zero, none)
  sigaction (pos (suc n)) oldact = (pos (suc n), oldact)
  sigaction (negsuc n) oldact = (negsuc n, oldact)

  -- What is to hold of the old action that a caller sees.
  pub record IsShown (ret : ℤ) (old new : Sigaction R) : Type ℓ where
    pub no_handler : ret ≡ pos 0 → (new.handler ≡ sig_dfl) ⊎ (new.handler ≡ sig_ign)
    pub ignored : old.handler ≡ sig_ign → new.handler ≡ sig_ign
    pub failed : ret ≢ pos 0 → new ≡ old
    pub rest : new.rest ≡ old.rest

  -- The return value is that of the real function. After a successful call the old action names
  -- no handler function, an ignored signal is still shown as ignored, and after a failing call
  -- the memory is as the real function left it; the fields beside the handler always are.
  pub sigaction_lem :
      (ret : ℤ) (old : Sigaction R)
      → (new : Sigaction R) × (sigaction ret (some old) ≡ (ret, some new)) × IsShown ret old new
  unfolding sigaction
  sigaction_lem (pos zero) old = (
    hide_handler old,
    refl,
    record {
      no_handler = λ e. ground arith;
      ignored = λ e. ground arith;
      failed = λ no_zero. absurd (no_zero refl);
      rest = ground arith;
    },
  )
  sigaction_lem (pos (suc n)) old = (
    old,
    refl,
    record { no_handler = λ e. absurd (cc); ignored = λ e. e; failed = λ e. refl; rest = refl },
  )
  sigaction_lem (negsuc n) old = (
    old,
    refl,
    record { no_handler = λ e. absurd (cc); ignored = λ e. e; failed = λ e. refl; rest = refl },
  )
