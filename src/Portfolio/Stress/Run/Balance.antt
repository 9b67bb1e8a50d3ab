-- ===== src/Portfolio/Stress/Run/Balance.antt =====
-- What the groups of a snapshot lose or gain under a shock, and what its legs do.
use mathlib.Core.List.{Perm, Permᴰ}
use mathlib.Core.Logic.{∥∥₁_elim}
use native.Mathlib.Nat.{ℕ_set}
use optix.Base.{
  ℕ, ◌≡◌, refl, sym, ap, ap₂, ◌∙◌, ◌&&◌, not, List, [], ◌∷◌, ◌++◌, Option, Bool-cases, inl, inr,
  ◌⊎◌,
}
use optix.Base.Int.{ℤ, pos, ◌+ℤ◌, ◌*ℤ◌, int_laws, parts_of_eq, *ℤ_add, *ℤ_parts, eqb_ℤ}
use optix.Base.Keyed.{change}
use optix.Base.Text.{Text, to_upper}
use optix.Portfolio.Types.{Mark, finite, not_finite, Position}
use optix.Portfolio.Greeks.{
  GreeksGroup, StressOptionLeg, PricedLeg, skipped_leg, priced_leg, Aggregation, group_key,
  new_group, count_skipped, count_stock, count_option, add_stock, add_stocks, add_priced,
  add_all_priced, aggregate,
}
use optix.Portfolio.Stress.{StressShock, StressBetaSource}
use optix.Portfolio.Stress.Run.{
  StressPositionPnl, sum_pnls, start_pnls, taylor_pnl, taylor_leg, stress_shock_key,
}
use optix.Portfolio.Stress.Run.Totals.{
  sum_ℤ, sum_ℤ-change, sum_pnls-sum_ℤ, sum_pnls-add_pnl, shock_of, stock_pnl, taylor_of, group_pnl,
}

ℤ_set : IsSet ℤ
ℤ_set = hlevel ℕ_set

sum_ℤ-Permᴰ : {A : Type 0} (f : A → ℤ) {xs ys : List A} → Permᴰ xs ys → sum_ℤ f xs ≡ sum_ℤ f ys
sum_ℤ-Permᴰ f Permᴰ.nil = refl
sum_ℤ-Permᴰ f (Permᴰ.cons e p) = ap₂ ◌+ℤ◌ (ap f e) (sum_ℤ-Permᴰ f p)
sum_ℤ-Permᴰ f (Permᴰ.swap e g) = omega (int_laws, parts_of_eq (ap f e), parts_of_eq (ap f g))
sum_ℤ-Permᴰ f (Permᴰ.trans p q) = sum_ℤ-Permᴰ f p ∙ sum_ℤ-Permᴰ f q

pub sum_ℤ-Perm : {A : Type 0} (f : A → ℤ) {xs ys : List A} → Perm xs ys → sum_ℤ f xs ≡ sum_ℤ f ys
sum_ℤ-Perm f p = ∥∥₁_elim p (ℤ_set _ _) (sum_ℤ-Permᴰ f)

sum_ℤ_last :
    {A : Type 0} (f : A → ℤ) (xs : List A) (x : A) → sum_ℤ f (xs ++ x ∷ []) ≡ sum_ℤ f xs +ℤ f x
sum_ℤ_last f [] x = omega int_laws
sum_ℤ_last f (y ∷ xs) x = omega (int_laws, parts_of_eq (sum_ℤ_last f xs x))

pub start_pnls-sum :
    (provider : Option (Text → Option StressBetaSource)) (gs : List GreeksGroup)
    (m : List StressPositionPnl)
    → sum_pnls (start_pnls provider gs m) ≡ sum_pnls m
unfolding start_pnls
start_pnls-sum provider [] m = refl
start_pnls-sum provider (g ∷ gs) m =
    start_pnls-sum provider gs _ ∙ sum_pnls-add_pnl g.key (pos 0) m ∙ omega int_laws

-- The Taylor P&L is additive in what a leg adds.
taylor_zero : (p i : ℤ) → taylor_pnl (pos 0) (pos 0) (pos 0) p i ≡ pos 0
unfolding taylor_pnl
taylor_zero p i = omega (int_laws, *ℤ_parts)

times_add : (a b p : ℤ) (n : ℕ) → (a +ℤ b) *ℤ p *ℤ pos n ≡ a *ℤ p *ℤ pos n +ℤ b *ℤ p *ℤ pos n
times_add a b p n = ap (λ x. x *ℤ pos n) (*ℤ_add a b p) ∙ *ℤ_add (a *ℤ p) (b *ℤ p) (pos n)

taylor-delta :
    (d v g w p i : ℤ) → taylor_pnl (d +ℤ v) g w p i ≡ taylor_pnl d g w p i +ℤ v *ℤ p *ℤ pos 200
unfolding taylor_pnl
taylor-delta d v g w p i = omega (int_laws, parts_of_eq (times_add d v p 200))

taylor_add :
    (d d' g g' w w' p i : ℤ)
    → taylor_pnl (d +ℤ d') (g +ℤ g') (w +ℤ w') p i ≡ taylor_pnl d g w p i +ℤ taylor_pnl d' g' w' p i
unfolding taylor_pnl
taylor_add d d' g g' w w' p i = omega (
  int_laws,
  parts_of_eq (times_add d d' p 200),
  parts_of_eq (*ℤ_add g g' (p *ℤ p)),
  parts_of_eq (times_add w w' i 20000),
)

add_assoc_ℤ : (a b c : ℤ) → a +ℤ b +ℤ c ≡ a +ℤ (b +ℤ c)
add_assoc_ℤ a b c = omega int_laws

add_swap_ℤ : (a b c : ℤ) → a +ℤ b +ℤ c ≡ a +ℤ c +ℤ b
add_swap_ℤ a b c = omega int_laws

pub no_pnls : (a : ℤ) → sum_pnls [] +ℤ a ≡ a
unfolding sum_pnls
no_pnls a = omega int_laws

pub sum_pnls-Perm : {ps qs : List StressPositionPnl} → Perm ps qs → sum_pnls ps ≡ sum_pnls qs
sum_pnls-Perm {ps} {qs} p = sum_pnls-sum_ℤ ps ∙ sum_ℤ-Perm (λ e. e.pnl) p ∙ sym (sum_pnls-sum_ℤ qs)

Mark-cases : (m : Mark) → (m ≡ not_finite) ⊎ ((v : ℤ) × (m ≡ finite v))
Mark-cases not_finite = inl refl
Mark-cases (finite v) = inr (v, refl)

shock_key_same : (u : Text) → stress_shock_key u u ≡ u
shock_key_same [] = refl
shock_key_same (c ∷ u) = refl

module _ (provider : Option (Text → Option StressBetaSource)) (shs : List StressShock) where
  abbrev by_groups : List GreeksGroup → ℤ
  by_groups gs = sum_ℤ (group_pnl provider shs) gs

  abbrev pub by_legs : Aggregation → ℤ
  by_legs a =
      sum_ℤ (stock_pnl provider shs) a.stress_stock_legs
      +ℤ sum_ℤ (taylor_of provider shs) a.stress_option_legs

  skipped-same :
      (k : Text) (mv : ℕ) (gs : List GreeksGroup)
      → by_groups (change group_key (new_group k) (count_skipped mv) k gs) ≡ by_groups gs
  skipped-same k mv gs =
      sum_ℤ-change group_key (group_pnl provider shs) (new_group k) (count_skipped mv) k (pos 0)
        refl (taylor_zero _ _) (λ g e. omega int_laws) gs
      ∙ omega int_laws

  stock-grows :
      (k : Text) (q v : ℤ) (gs : List GreeksGroup)
      → by_groups (change group_key (new_group k) (count_stock q v) k gs)
        ≡ by_groups gs +ℤ v *ℤ (shock_of provider shs k).price_pct *ℤ pos 200
  unfolding count_stock
  stock-grows k q v gs =
      sum_ℤ-change group_key (group_pnl provider shs) (new_group k) (count_stock q v) k _ refl
        (taylor_zero _ _)
        (λ g e.
          taylor-delta g.dollar_delta v g.dollar_gamma g.vega _ _
          ∙ ap
              (λ (t : Text).
                group_pnl provider shs g +ℤ v *ℤ (shock_of provider shs t).price_pct *ℤ pos 200)
              e)
        gs

  option-grows :
      (k : Text) (mv : ℕ) (n c t : ℤ) (src : Text) (l : StressOptionLeg) (gs : List GreeksGroup)
      → by_groups (change group_key (new_group k) (count_option mv n c t src l) k gs)
        ≡ by_groups gs
          +ℤ taylor_leg l (shock_of provider shs k).price_pct (shock_of provider shs k).iv_points
  unfolding count_option
  option-grows k mv n c t src l gs =
      sum_ℤ-change group_key (group_pnl provider shs) (new_group k) (count_option mv n c t src l) k
        _ refl (taylor_zero _ _)
        (λ g e.
          taylor_add g.dollar_delta _ g.dollar_gamma _ g.vega _ _ _
          ∙ ap
              (λ (u : Text).
                group_pnl provider shs g
                +ℤ taylor_leg l (shock_of provider shs u).price_pct
                    (shock_of provider shs u).iv_points)
              e)
        gs

  -- What the groups and the legs of a snapshot lose or gain is the same.
  abbrev Balances : Aggregation → Type 0
  Balances a = by_groups a.groups ≡ by_legs a

  -- A leg that is listed for its underlying.
  stock_listed :
      (u : Text) (v : ℤ) (a : Aggregation)
      → by_legs a +ℤ v *ℤ (shock_of provider shs u).price_pct *ℤ pos 200
        ≡ sum_ℤ
            (stock_pnl provider shs)
            (a.stress_stock_legs ++ record { key = u; shock_key = u; market_value = v } ∷ [])
          +ℤ sum_ℤ (taylor_of provider shs) a.stress_option_legs
  stock_listed u v a =
      let stocks = sum_ℤ (stock_pnl provider shs) a.stress_stock_legs in
      let options = sum_ℤ (taylor_of provider shs) a.stress_option_legs in
      add_swap_ℤ stocks options _
      ∙ ap (◌+ℤ options) (
          ap (λ (t : Text). stocks +ℤ v *ℤ (shock_of provider shs t).price_pct *ℤ pos 200)
            (sym (shock_key_same u))
          ∙ sym (sum_ℤ_last (stock_pnl provider shs) a.stress_stock_legs _))

  option_listed :
      (l : StressOptionLeg) (a : Aggregation)
      → by_legs a
          +ℤ taylor_leg l
              (shock_of provider shs l.shock_key).price_pct
              (shock_of provider shs l.shock_key).iv_points
        ≡ sum_ℤ (stock_pnl provider shs) a.stress_stock_legs
          +ℤ sum_ℤ
              (taylor_of provider shs)
              (a.stress_option_legs ++ record l { key = l.shock_key } ∷ [])
  option_listed l a =
      let stocks = sum_ℤ (stock_pnl provider shs) a.stress_stock_legs in
      let options = sum_ℤ (taylor_of provider shs) a.stress_option_legs in
      add_assoc_ℤ stocks options _
      ∙ ap (stocks +ℤ◌) (
          ap
            (λ (t : Text).
              options
              +ℤ taylor_leg l (shock_of provider shs t).price_pct
                  (shock_of provider shs t).iv_points)
            (sym (shock_key_same l.shock_key))
          ∙ sym (sum_ℤ_last (taylor_of provider shs) a.stress_option_legs _))

  add_stock-Balances :
      (p : Position) (a : Aggregation) → Balances a → Balances (add_stock (λ u. u) p a)
  unfolding add_stock
  add_stock-Balances p a h =
      let u = to_upper p.symbol in
      elim (Mark-cases p.market_value) [
        | inl e ↦ rw (e, add_stock) (skipped-same u 0 a.groups ∙ h)
        | inr (v, e) ↦ elim (Bool-cases (eqb_ℤ v (pos 0) && not (eqb_ℤ p.quantity (pos 0)))) [
          | inl c ↦ rw (e, c, add_stock) (skipped-same u 0 a.groups ∙ h)
          | inr c ↦
              rw (e, c, add_stock)
                (stock-grows u p.quantity v a.groups
                  ∙ ap (◌+ℤ v *ℤ (shock_of provider shs u).price_pct *ℤ pos 200) h
                  ∙ stock_listed u v a)
        ]
      ]

  add_priced-Balances :
      (l : PricedLeg) (a : Aggregation) → Balances a → Balances (add_priced (λ u. u) l a)
  unfolding add_priced
  add_priced-Balances (skipped_leg u mv leg) a h = skipped-same u mv a.groups ∙ h
  add_priced-Balances (priced_leg mv n c t src l) a h =
      option-grows l.shock_key mv n c t src l a.groups
      ∙ ap
          (λ (x : ℤ).
            x
            +ℤ taylor_leg l (shock_of provider shs l.shock_key).price_pct
                (shock_of provider shs l.shock_key).iv_points)
          h
      ∙ option_listed l a

  add_stocks-Balances :
      (ps : List Position) (a : Aggregation) → Balances a → Balances (add_stocks (λ u. u) ps a)
  unfolding add_stocks
  add_stocks-Balances [] a h = h
  add_stocks-Balances (p ∷ ps) a h = add_stocks-Balances ps _ (add_stock-Balances p a h)

  add_all_priced-Balances :
      (ls : List PricedLeg) (a : Aggregation) → Balances a → Balances (add_all_priced (λ u. u) ls a)
  unfolding add_all_priced
  add_all_priced-Balances [] a h = h
  add_all_priced-Balances (l ∷ ls) a h = add_all_priced-Balances ls _ (add_priced-Balances l a h)

  pub aggregate-Balances :
      (ps : List Position) (ls : List PricedLeg) → Balances (aggregate (λ u. u) ps ls)
  unfolding aggregate
  aggregate-Balances ps ls =
      add_all_priced-Balances ls _ (add_stocks-Balances ps _ (omega int_laws))
