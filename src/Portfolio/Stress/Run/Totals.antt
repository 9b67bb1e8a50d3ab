-- ===== src/Portfolio/Stress/Run/Totals.antt =====
-- What the P&L of a scenario adds up to.
use optix.Base.{
  ℕ, ◌≡◌, refl, sym, ap, ap₂, ◌∙◌, Bool, true, false, List, [], ◌∷◌, Option, if◌then◌else◌,
  Bool-cases, inl, inr,
}
use optix.Base.Int.{ℤ, pos, ◌+ℤ◌, ◌*ℤ◌, int_laws, parts_of_eq}
use optix.Base.Keyed.{change}
use optix.Base.Text.{Text, codes, text_eq, text_eq→eq}
use optix.Portfolio.Greeks.{GreeksGroup, StressStockLeg, StressOptionLeg}
use optix.Portfolio.Stress.{
  StressShock, StressBetaSource, Axes, add_shock, add_shocks, add_beta_shock, stress_axes_for_group,
  stress_beta, size_of, is_qqq_shock_target,
}
use optix.Portfolio.Stress.Run.{
  StressPositionPnl, Pricer, Answer, failed, can_reprice, read_answer, shocked_spot, shocked_iv,
  Repricing, sum_pnls, add_pnl, add_stock_legs, add_option_legs, stress_shock_key,
  reprice_option_leg, key_of_pnl, taylor_pnl, taylor_leg, group_positions,
}

-- Any measure of integers over a list.
abbrev pub sum_ℤ : {A : Type 0} → (A → ℤ) → List A → ℤ
sum_ℤ f [] = pos 0
sum_ℤ f (x ∷ xs) = f x +ℤ sum_ℤ f xs

-- An item that changes changes the sum by as much.
pub sum_ℤ-change :
    {A : Type 0} (key : A → Text) (f : A → ℤ) (new : A) (add : A → A) (k : Text) (v : ℤ)
    → key new ≡ k
    → f new ≡ pos 0
    → ((x : A) → key x ≡ k → f (add x) ≡ f x +ℤ v)
    → (xs : List A) → sum_ℤ f (change key new add k xs) ≡ sum_ℤ f xs +ℤ v
unfolding change
sum_ℤ-change key f new add k v named zero_ grows [] =
    omega (int_laws, parts_of_eq (grows new named), parts_of_eq zero_)
sum_ℤ-change key f new add k v named zero_ grows (x ∷ xs) = elim (Bool-cases (text_eq k (key x))) [
  | inl e ↦
      let at_x = grows x (sym (text_eq→eq k (key x) e)) in
      rw (e, change) (omega (int_laws, parts_of_eq at_x))
  | inr e ↦
      let more = sum_ℤ-change key f new add k v named zero_ grows xs in
      rw (e, change) (omega (int_laws, parts_of_eq more))
]

pub sum_pnls-sum_ℤ : (ps : List StressPositionPnl) → sum_pnls ps ≡ sum_ℤ (λ p. p.pnl) ps
unfolding sum_pnls
sum_pnls-sum_ℤ [] = refl
sum_pnls-sum_ℤ (p ∷ ps) = ap (p.pnl +ℤ◌) (sum_pnls-sum_ℤ ps)

pub sum_pnls-add_pnl :
    (k : Text) (v : ℤ) (m : List StressPositionPnl) → sum_pnls (add_pnl k v m) ≡ sum_pnls m +ℤ v
unfolding add_pnl
sum_pnls-add_pnl k v m =
    sum_pnls-sum_ℤ _
    ∙ sum_ℤ-change key_of_pnl (λ p. p.pnl) (record { key = k; pnl = pos 0 })
        (λ e. record e { pnl = e.pnl +ℤ v }) k v refl refl (λ x e. refl) m
    ∙ ap (◌+ℤ v) (sym (sum_pnls-sum_ℤ m))

-- The betas that were used before change no shock.
pub record IsAlike (a b : Axes) : Type 0 where
  pub same_price : a.price_pct ≡ b.price_pct
  pub same_iv : a.iv_points ≡ b.iv_points

if-IsAlike :
    (c : Bool) (a a' b b' : Axes)
    → IsAlike a b
    → IsAlike a' b'
    → IsAlike (if c then a else a') (if c then b else b')
if-IsAlike true a a' b b' h k = h
if-IsAlike false a a' b b' h k = k

add_beta_shock-IsAlike :
    (sh : StressShock) (src : StressBetaSource) (a b : Axes)
    → IsAlike a b
    → IsAlike (add_beta_shock sh src a) (add_beta_shock sh src b)
unfolding add_beta_shock
add_beta_shock-IsAlike sh src a b h = record {
  same_price = ap (◌+ℤ sh.magnitude *ℤ size_of src.beta) h.same_price;
  same_iv = h.same_iv;
}

module _ (provider : Option (Text → Option StressBetaSource)) where
  add_shock-IsAlike :
      (key : Text) (sh : StressShock) (a b : Axes)
      → IsAlike a b
      → IsAlike (add_shock provider key sh a) (add_shock provider key sh b)
  unfolding add_shock
  add_shock-IsAlike key sh a b h =
      let shocked = add_beta_shock-IsAlike sh (stress_beta provider key) a b h in
      let moved : IsAlike (record a { price_pct = a.price_pct +ℤ sh.magnitude *ℤ pos 100 })
          (record b { price_pct = b.price_pct +ℤ sh.magnitude *ℤ pos 100 }) =
        record {
          same_price = ap (◌+ℤ sh.magnitude *ℤ pos 100) h.same_price;
          same_iv = h.same_iv;
        } in
      let widened : IsAlike (record a { iv_points = a.iv_points +ℤ sh.magnitude })
          (record b { iv_points = b.iv_points +ℤ sh.magnitude }) =
        record { same_price = h.same_price; same_iv = ap (◌+ℤ sh.magnitude) h.same_iv } in
      if-IsAlike (text_eq sh.axis (codes "underlying_pct")) _ _ _ _ moved (
        if-IsAlike (text_eq sh.axis (codes "spy_pct")) _ _ _ _ shocked (
          if-IsAlike (text_eq sh.axis (codes "qqq_pct")) _ _ _ _
            (if-IsAlike (is_qqq_shock_target key) _ a _ b shocked h)
            (if-IsAlike (text_eq sh.axis (codes "iv_points")) _ a _ b widened h)))

  add_shocks-IsAlike :
      (key : Text) (shs : List StressShock) (a b : Axes)
      → IsAlike a b
      → IsAlike (add_shocks provider key shs a) (add_shocks provider key shs b)
  unfolding add_shocks
  add_shocks-IsAlike key [] a b h = h
  add_shocks-IsAlike key (sh ∷ shs) a b h =
      add_shocks-IsAlike key shs _ _ (add_shock-IsAlike key sh a b h)

  -- The shocks of a key.
  abbrev pub shock_of : List StressShock → Text → Axes
  shock_of shs key = stress_axes_for_group provider key shs []

  pub shock_of-IsAlike :
      (shs : List StressShock) (key : Text) (used_ : List StressBetaSource)
      → IsAlike (stress_axes_for_group provider key shs used_) (shock_of shs key)
  unfolding stress_axes_for_group
  shock_of-IsAlike shs key used_ =
      add_shocks-IsAlike key shs _ _ (record { same_price = refl; same_iv = refl })

  abbrev pub stock_pnl : List StressShock → StressStockLeg → ℤ
  stock_pnl shs l =
      l.market_value *ℤ (shock_of shs (stress_shock_key l.key l.shock_key)).price_pct *ℤ pos 200

  abbrev pub taylor_of : List StressShock → StressOptionLeg → ℤ
  taylor_of shs l =
      let a = shock_of shs (stress_shock_key l.key l.shock_key) in
      taylor_leg l a.price_pct a.iv_points

  abbrev pub group_pnl : List StressShock → GreeksGroup → ℤ
  group_pnl shs g =
      let a = shock_of shs g.key in
      taylor_pnl g.dollar_delta g.dollar_gamma g.vega a.price_pct a.iv_points

  pub add_stock_legs-sum :
      (shs : List StressShock) (ls : List StressStockLeg) (m : List StressPositionPnl)
      (used_ : List StressBetaSource)
      → sum_pnls (add_stock_legs provider shs ls m used_).0 ≡ sum_pnls m +ℤ sum_ℤ (stock_pnl shs) ls
  unfolding add_stock_legs
  add_stock_legs-sum shs [] m used_ = omega int_laws
  add_stock_legs-sum shs (l ∷ ls) m used_ =
      let key = stress_shock_key l.key l.shock_key in
      let same = shock_of-IsAlike shs key used_ in
      add_stock_legs-sum shs ls _ _
      ∙ ap (◌+ℤ sum_ℤ (stock_pnl shs) ls) (
          sum_pnls-add_pnl l.key _ m
          ∙ ap (λ p. sum_pnls m +ℤ l.market_value *ℤ p *ℤ pos 200) same.same_price)
      ∙ omega int_laws

  pub group_positions-sum :
      (shs : List StressShock) (gs : List GreeksGroup) (used_ : List StressBetaSource)
      → sum_pnls (group_positions provider shs gs used_).0 ≡ sum_ℤ (group_pnl shs) gs
  unfolding group_positions sum_pnls
  group_positions-sum shs [] used_ = refl
  group_positions-sum shs (g ∷ gs) used_ =
      let same = shock_of-IsAlike shs g.key used_ in
      ap₂ ◌+ℤ◌ (ap₂ (taylor_pnl g.dollar_delta g.dollar_gamma g.vega) same.same_price same.same_iv)
        (group_positions-sum shs gs _)

  -- A pricer that fails at every call leaves each leg to its Greeks.
  module _ (pricer : Pricer) where
    reprice-failed :
        ((n : ℕ) (l : StressOptionLeg) (spot iv : ℤ) → pricer n l spot iv ≡ failed)
        → (l : StressOptionLeg) (p iv : ℤ) (r : Repricing)
        → (reprice_option_leg pricer l p iv r).0 ≡ taylor_leg l p iv
    unfolding reprice_option_leg read_answer
    reprice-failed down l p iv r = elim (Bool-cases r.disabled) [
      | inl off ↦ rw (off, reprice_option_leg) refl
      | inr on ↦ elim (Bool-cases (can_reprice l p iv)) [
        | inl can ↦
            rw (on, can, reprice_option_leg)
              (ap (λ (x : Answer). (read_answer l p iv x).0)
                (down r.calls l (shocked_spot l p) (shocked_iv l iv)))
        | inr cannot ↦ rw (on, cannot, reprice_option_leg) refl
      ]
    ]

    pub add_option_legs-sum :
        ((n : ℕ) (l : StressOptionLeg) (spot iv : ℤ) → pricer n l spot iv ≡ failed)
        → (shs : List StressShock) (ls : List StressOptionLeg) (r : Repricing)
          (m : List StressPositionPnl) (used_ : List StressBetaSource)
        → sum_pnls (add_option_legs provider pricer shs ls r m used_).0.0
          ≡ sum_pnls m +ℤ sum_ℤ (taylor_of shs) ls
    unfolding add_option_legs
    add_option_legs-sum down shs [] r m used_ = omega int_laws
    add_option_legs-sum down shs (l ∷ ls) r m used_ =
        let key = stress_shock_key l.key l.shock_key in
        let same = shock_of-IsAlike shs key used_ in
        let a = stress_axes_for_group provider key shs used_ in
        add_option_legs-sum down shs ls _ _ _
        ∙ ap (◌+ℤ sum_ℤ (taylor_of shs) ls) (
            sum_pnls-add_pnl l.key _ m
            ∙ ap (sum_pnls m +ℤ◌) (
                reprice-failed down l a.price_pct a.iv_points r
                ∙ ap₂ (taylor_leg l) same.same_price same.same_iv))
        ∙ omega int_laws
