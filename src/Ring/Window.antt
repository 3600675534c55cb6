-- ===== src/Ring/Window.antt =====
-- The entries of a ring in order: what `n` slots from an index on hold, going round at the end.
use native.Mathlib.Nat.{mod-eq_of_lt, mod-eq-sub-mod, mod-add-mod, add-zero, zero-add, suc-add}
use native.Mathlib.Decide.{dec_lt}
use inecontainer.Prelude.{
  ℕ, zero, suc, ◌+◌, ◌-◌, ◌%◌, ◌≤◌, ◌<◌, ◌≡◌, ◌≢◌, refl, sym, ◌∙◌, ap, ap₂, subst, List, [], ◌∷◌,
  ◌++◌, length, get_or, set, get_or-set_self, get_or-set_ne, set-append, arith,
}
use inecontainer.Ring.{RingBuffer}

module _ {ℓ} {A : Type ℓ} (L : ℕ) (d : A) where
  unfoldable pub window : List A → ℕ → ℕ → List A
  window buf h zero = []
  window buf h (suc n) = get_or buf h d ∷ window buf ((h + 1) % L) n

  -- The abstract value of a ring: its entries, oldest first.
  unfoldable pub entries : RingBuffer A → List A
  entries r = window r.buffer r.extraction_index r.entry_count

  pub length-window : (buf : List A) (h n : ℕ) → length (window buf h n) ≡ n
  unfolding window
  length-window buf h zero = refl
  length-window buf h (suc n) = ap suc (length-window buf ((h + 1) % L) n)

  pub round_step : (h n : ℕ) → ((h + 1) % L + n) % L ≡ (h + suc n) % L
  round_step h n = rw mod-add-mod (ap (λ (k : ℕ). k % L) (omega arith))

  -- Fewer than `L` steps do not come back to the start.
  round_ne : (h k : ℕ) → h < L → suc k < L → (h + suc k) % L ≢ h
  round_ne h k hh hk = elim (dec_lt (h + suc k) L) [
    | yes p ↦ omega (arith, mod-eq_of_lt p)
    | no p ↦ omega (
      arith,
      mod-eq-sub-mod {n = h + suc k} {m = L} (omega arith),
      mod-eq_of_lt {n = h + suc k - L} {m = L} (omega arith),
    )
  ]

  -- A window splits at any point.
  pub window-add :
      (buf : List A) (h m n : ℕ)
      → h < L
      → window buf h (m + n) ≡ window buf h m ++ window buf ((h + m) % L) n
  unfolding window
  window-add buf h zero n hh =
      ap₂ (λ (k : ℕ) (j : ℕ). window buf j k) (zero-add n)
        (sym (ap (λ (k : ℕ). k % L) (add-zero h) ∙ mod-eq_of_lt hh))
  window-add buf h (suc m) n hh = rw suc-add (
      ap (◌∷◌ (get_or buf h d)) (
        window-add buf ((h + 1) % L) m n (omega arith)
        ∙ ap (λ (k : ℕ). window buf ((h + 1) % L) m ++ window buf k n) (round_step h m)))

  -- Reading and writing inside a window.
  pub get_or-window :
      (buf : List A) (h n i : ℕ)
      → h < L
      → i < n
      → get_or (window buf h n) i d ≡ get_or buf ((h + i) % L) d
  unfolding window
  get_or-window buf h zero i hh hi = absurd (omega arith)
  get_or-window buf h (suc n) zero hh hi = rw (add-zero, mod-eq_of_lt hh)
  get_or-window buf h (suc n) (suc i) hh hi =
      get_or-window buf ((h + 1) % L) n i (omega arith) (omega arith)
      ∙ ap (λ (k : ℕ). get_or buf k d) (round_step h i)

  pub set-window_out :
      (buf : List A) (h n i : ℕ) (x : A)
      → h < L
      → ((k : ℕ) → k < n → i ≢ (h + k) % L)
      → window (set buf i x) h n ≡ window buf h n
  unfolding window
  set-window_out buf h zero i x hh out = refl
  set-window_out buf h (suc n) i x hh out =
      ap₂ ◌∷◌ (get_or-set_ne buf i h x d first)
        (set-window_out buf ((h + 1) % L) n i x (omega arith) later)
    where
      first : i ≢ h
      first e = out 0 (omega arith) (e ∙ sym (ap (λ (k : ℕ). k % L) (add-zero h) ∙ mod-eq_of_lt hh))

      later : (k : ℕ) → k < n → i ≢ ((h + 1) % L + k) % L
      later k p e = out (suc k) (omega arith) (e ∙ round_step h k)

  pub set-window_in :
      (buf : List A) (h n k : ℕ) (x : A)
      → length buf ≡ L
      → h < L
      → n ≤ L
      → k < n
      → window (set buf ((h + k) % L) x) h n ≡ set (window buf h n) k x
  unfolding window
  set-window_in buf h zero k x hl hh hn hk = absurd (omega arith)
  set-window_in buf h (suc n) zero x hl hh hn hk =
      let at_h : (h + 0) % L ≡ h = ap (λ (k : ℕ). k % L) (add-zero h) ∙ mod-eq_of_lt hh in
      subst (λ (i : ℕ). window (set buf i x) h (suc n) ≡ set (window buf h (suc n)) 0 x) (sym at_h)
        (ap₂ ◌∷◌ (get_or-set_self buf h x d (omega arith)) (
          set-window_out buf ((h + 1) % L) n h x (omega arith)
            λ k p e. round_ne h k hh (omega arith) (sym (e ∙ round_step h k))))
  set-window_in buf h (suc n) (suc k) x hl hh hn hk =
      ap₂ ◌∷◌ (get_or-set_ne buf ((h + suc k) % L) h x d (round_ne h k hh (omega arith))) (
        ap (λ (i : ℕ). window (set buf i x) ((h + 1) % L) n) (sym (round_step h k))
        ∙ set-window_in buf ((h + 1) % L) n k x hl (omega arith) (omega arith) (omega arith))

  -- Writing just past a window makes it longer by that entry.
  pub window-set_end :
      (buf : List A) (h n : ℕ) (x : A)
      → length buf ≡ L
      → h < L
      → n < L
      → window (set buf ((h + n) % L) x) h (suc n) ≡ window buf h n ++ x ∷ []
  window-set_end buf h n x hl hh hn =
      set-window_in buf h (suc n) n x hl hh (omega arith) (omega arith)
      ∙ ap (λ (w : List A). set w n x) split
      ∙ ap (λ (k : ℕ). set (window buf h n ++ last ∷ []) k x) (sym (length-window buf h n))
      ∙ set-append (window buf h n) last x
    where
      last : A
      last = get_or buf ((h + n) % L) d

      one_more : suc n ≡ n + 1
      one_more = omega arith

      split : window buf h (suc n) ≡ window buf h n ++ last ∷ []
      split = ap (window buf h) one_more ∙ window-add buf h n 1 hh ∙ unfold window in refl
