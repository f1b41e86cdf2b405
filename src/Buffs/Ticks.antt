-- ===== src/Buffs/Ticks.antt =====
-- What the ticks of a buff leave of its stacks.
use open_fusion.Common.{
  append_nil, ◌++◌, ℕ, zero, suc, ◌≡◌, refl, sym, ap, ap₂, ◌∙◌, inl, inr, Bool, true, false, List,
  [], ◌∷◌, arith, if◌then◌else◌, Bool-cases,
}
use open_fusion.Common.Int.{ℤ, pos, ◌-ℤ◌, ltb_ℤ, leb_ℤ, eqb_ℤ}
use open_fusion.Buffs.{BuffStack, Buff, count_down, tick_stacks, tick}

-- A number of ticks in a row.
unfoldable pub ticks : ℕ → Buff → Buff
ticks zero buff = buff
ticks (suc k) buff = ticks k (tick buff).0

-- A stack of a negative duration outlives all ticks, another as many as its duration.
abbrev pub outlives : ℕ → ℤ → Bool
outlives k d = if ltb_ℤ d (pos 0) then true else leb_ℤ (pos k) d

abbrev pub aged : ℕ → ℤ → ℤ
aged k d = if ltb_ℤ d (pos 0) then d else d -ℤ pos k

-- What k ticks should leave of a list of stacks.
unfoldable pub remaining : ℕ → List BuffStack → List BuffStack
remaining k [] = []
remaining k (s ∷ stacks) =
    let rest = remaining k stacks in
    if outlives k s.duration_ticks
    then record s { duration_ticks = aged k s.duration_ticks } ∷ rest
    else rest

append_assoc : (xs ys : List BuffStack) (z : BuffStack) → (xs ++ z ∷ []) ++ ys ≡ xs ++ z ∷ ys
append_assoc [] ys z = refl
append_assoc (x ∷ xs) ys z = ap (λ l. x ∷ l) (append_assoc xs ys z)

-- One tick of one stack.
dead_now : (d : ℤ) → eqb_ℤ d (pos 0) ≡ true → outlives 1 d ≡ false
dead_now d h = ground arith

alive_now : (d : ℤ) → eqb_ℤ d (pos 0) ≡ false → outlives 1 d ≡ true
alive_now d h = ground arith

count_down-aged :
    (s : BuffStack)
    → eqb_ℤ s.duration_ticks (pos 0) ≡ false
    → count_down s ≡ record s { duration_ticks = aged 1 s.duration_ticks }
count_down-aged s h = ground arith

tick_stacks-remaining :
    (b : Bool) (kept stacks : List BuffStack)
    → (tick_stacks b kept stacks).0 ≡ kept ++ remaining 1 stacks
unfolding tick_stacks remaining
tick_stacks-remaining b kept [] = sym (append_nil kept)
tick_stacks-remaining b kept (s ∷ stacks) = elim (Bool-cases (eqb_ℤ s.duration_ticks (pos 0))) [
  | inl e ↦ simp (e, dead_now s.duration_ticks e) (tick_stacks-remaining b kept stacks)
  | inr e ↦
      simp (e, alive_now s.duration_ticks e)
        (tick_stacks-remaining b (kept ++ count_down s ∷ []) stacks
          ∙ append_assoc kept (remaining 1 stacks) (count_down s)
          ∙ ap (λ (z : BuffStack). kept ++ z ∷ remaining 1 stacks) (count_down-aged s e))
]

-- The ages of one tick and of k more.
gone_later : (k : ℕ) (d : ℤ) → outlives 1 d ≡ false → outlives (suc k) d ≡ false
gone_later k d h = ground arith

still_there : (k : ℕ) (d : ℤ) → outlives 1 d ≡ true → outlives (suc k) d ≡ outlives k (aged 1 d)
unfolding ◌-ℤ◌
still_there k d h = ground arith

older : (k : ℕ) (d : ℤ) → outlives 1 d ≡ true → aged (suc k) d ≡ aged k (aged 1 d)
unfolding ◌-ℤ◌
older k d h = ground arith

remaining-add :
    (k : ℕ) (stacks : List BuffStack) → remaining (suc k) stacks ≡ remaining k (remaining 1 stacks)
unfolding remaining
remaining-add k [] = refl
remaining-add k (s ∷ stacks) = elim (Bool-cases (outlives 1 s.duration_ticks)) [
  | inl e ↦
      simp (e, still_there k s.duration_ticks e, older k s.duration_ticks e, remaining-add k stacks)
        refl
  | inr e ↦ simp (e, gone_later k s.duration_ticks e) (remaining-add k stacks)
]

unaged : (d : ℤ) → aged 0 d ≡ d
unfolding ◌-ℤ◌
unaged d = ground arith

always : (d : ℤ) → outlives 0 d ≡ true
always d = ground arith

remaining-zero : (stacks : List BuffStack) → remaining 0 stacks ≡ stacks
unfolding remaining
remaining-zero [] = refl
remaining-zero (s ∷ stacks) = simp (always s.duration_ticks) (
    ap₂ (λ (d : ℤ) (l : List BuffStack). record s { duration_ticks = d } ∷ l)
      (unaged s.duration_ticks) (remaining-zero stacks))

-- After k calls of tick a buff has exactly the stacks of a negative duration, as they were, and those
-- of a duration of at least k, with k less, in their order.
pub ticks-remaining : (k : ℕ) (buff : Buff) → (ticks k buff).stacks ≡ remaining k buff.stacks
unfolding ticks tick
ticks-remaining zero buff = sym (remaining-zero buff.stacks)
ticks-remaining (suc k) buff =
    ticks-remaining k (tick buff).0
    ∙ ap (remaining k) (tick_stacks-remaining buff.on_update [] buff.stacks)
    ∙ sym (remaining-add k buff.stacks)
