-- ===== src/Ladder/Weight.antt =====
-- What the parts of lowered code weigh, for any account: matches on conditions, loops and operators.
pub mod Parts
pub mod Visit
use crunch_lang.Prelude.{
  ℕ, suc, ◌+◌, ◌≤◌, ◌<◌, Bool, true, false, Option, none, some, List, [], ◌∷◌, arith, ◌≡◌, refl,
  ◌∙◌, sym,
}
use crunch_lang.Ast as Ast
use crunch_lang.Hir.{
  no_expr, Var, user, auto, HirType, TypeId, Literal, Expr, expr, ExprKind, OptExpr, Exprs, Block,
  block, Stmt, Stmts, Arms, MatchArm, push_stmt, no_stmts, add_stmt, push, empty,
}
use crunch_lang.Hir.Tally.{
  tally, tally_literal, tally_exprs, tally_opt, tally_block, tally_stmts, tally_stmt, tally_arms,
  tally_arm,
}
use crunch_lang.Ladder.{
  block_location, Ladder, Lower, pure, todo, ◌>>=◌, Recall, next_var, bool_type, unknown_type,
  fresh_type, bool_literal, bool_arm, guarded_arm, block_statement, push_blocks,
  visit_then_and_else, or_empty, visit_if_only, else_arms, visit_if_guards,
}
use crunch_lang.Ladder.Account.{Account, IsNamed, nothing, kept, after}
use crunch_lang.Ladder.Runs.{Runs, panics, returns, ◌▷◌}
use crunch_lang.Ladder.Quiet.{
  IsQuiet, merge_locations-Runs, unknown_type-IsQuiet, bool_type-IsQuiet, fresh_type-IsQuiet,
}

module _ (a : Account) where
  open a use {
    join, declares, uses, Weighs, forth, idle, early, late, seq, swapped, declared, used, assoc,
    left_zero, right_zero,
  }

  -- From a ladder on, `m` gives values of which `weight` is accounted for.
  abbrev pub Costs : {A : Type 0} → (A → ℕ) → Lower A → Type 0
  Costs weight m =
      (s : Ladder) → Runs (λ x s'. Weighs (weight x) s.variable_counter s'.variable_counter) (m s)

  abbrev pub weight_of : Expr → ℕ
  weight_of = tally join declares uses

  -- The weight of an option of a block.
  abbrev pub weight_else : Option Block → ℕ
  weight_else none = 0
  weight_else (some b) = tally_block join declares uses b

  pub tally_stmts-push_stmt :
      (ss : Stmts) (x : Stmt)
      → tally_stmts join declares uses (push_stmt ss x)
        ≡ join (tally_stmts join declares uses ss) (tally_stmt join declares uses x)
  unfolding push_stmt tally
  tally_stmts-push_stmt no_stmts x = right_zero _ ∙ sym (left_zero _)
  tally_stmts-push_stmt (add_stmt t ss) x = rw (tally_stmts-push_stmt ss x) (sym (assoc _ _ _))

  pub push-Weighs :
      (scope : Block) (x : Stmt) {b c d : ℕ}
      → Weighs (tally_block join declares uses scope) b c
      → Weighs (tally_stmt join declares uses x) c d
      → Weighs (tally_block join declares uses (push scope x)) b d
  unfolding push tally
  push-Weighs (block ss colors loc) x p q = rw (tally_stmts-push_stmt ss x) (seq p q)

  -- A new variable is declared by its number, and may be used from then on.
  pub next_var-Costs :
      (s : Ladder)
      → Runs
          (λ v s'.
            Weighs (declares v) s.variable_counter s'.variable_counter
            × IsNamed a v s'.variable_counter)
          (next_var s)
  unfolding next_var
  next_var-Costs s = returns (declared, λ e h. used {c = s.variable_counter} {d = e} (omega arith))

  -- The parts of an arm without a guard weigh what its body does.
  pub in_arm : {x c d : ℕ} → Weighs x c d → Weighs (join 0 (join 0 x)) c d
  in_arm p = seq (nothing a) (seq (nothing a) p)

  module _ (recall : Recall) where
    -- A Boolean literal weighs nothing.
    pub bool_literal-Costs :
        (b : Bool) (loc : Ast.Location) (s : Ladder)
        → Runs
            (λ l s'.
              (tally_literal join declares uses l ≡ 0) × (s'.variable_counter ≡ s.variable_counter))
            (bool_literal recall b loc s)
    unfolding bool_literal tally
    bool_literal-Costs b loc s = bool_type-IsQuiet recall loc s ▷ λ ty s' q. returns (refl, q)

    -- An arm whose body is visited when the counter has got at least as far as here.
    pub bool_arm-Costs_from :
        (b : Bool) (loc : Ast.Location) {m : Lower Block} (s : Ladder)
        → ((s' : Ladder)
            → s.variable_counter ≤ s'.variable_counter
            → Runs
                (λ x s''.
                  Weighs
                    (tally_block join declares uses x)
                    s'.variable_counter
                    s''.variable_counter)
                (m s'))
        → Runs
            (λ x s'. Weighs (tally_arm join declares uses x) s.variable_counter s'.variable_counter)
            (bool_arm recall b loc m s)
    unfolding bool_arm tally
    bool_arm-Costs_from b loc s k = bool_literal-Costs b loc s ▷ λ l s₁ p.
        k s₁ (omega arith) ▷ λ body s₂ q. unknown_type-IsQuiet recall loc s₂ ▷ λ ty s₃ r.
        returns (rw p.0 (after a p.1 (in_arm (kept a q r))))

    pub bool_arm-Costs :
        (b : Bool) (loc : Ast.Location) {m : Lower Block}
        → Costs (tally_block join declares uses) m
        → Costs (tally_arm join declares uses) (bool_arm recall b loc m)
    bool_arm-Costs b loc m s = bool_arm-Costs_from b loc s λ s' le. m s'

    -- An arm for a block that is accounted for already.
    pub bool_arm-of :
        (b : Bool) (loc : Ast.Location) (body : Block) (s : Ladder)
        → Runs
            (λ m s'.
              (tally_arm join declares uses m
                ≡ join 0 (join 0 (tally_block join declares uses body)))
              × (s'.variable_counter ≡ s.variable_counter))
            (bool_arm recall b loc (pure body) s)
    unfolding bool_arm tally
    bool_arm-of b loc body s = bool_literal-Costs b loc s ▷ λ l s₁ p.
        unknown_type-IsQuiet recall loc s₁ ▷ λ ty s₂ r. returns (rw p.0 refl, r ∙ p.1)

    pub guarded_arm-Costs :
        (guard : OptExpr) (body : Block) (c : ℕ) (s : Ladder)
        → Weighs
            (join (tally_opt join declares uses guard) (tally_block join declares uses body))
            c
            s.variable_counter
        → Runs
            (λ m s'. Weighs (tally_arm join declares uses m) c s'.variable_counter)
            (guarded_arm recall guard body s)
    unfolding guarded_arm tally
    guarded_arm-Costs guard body c s p =
        unknown_type-IsQuiet recall _ s ▷ λ ty s' r. returns (seq (nothing a) (kept a p r))

    -- The blocks behind a loop, accounted for before the match that holds them.
    pub block_statement-Costs :
        (then_loc else_loc : Ast.Location) (v : Var) (then_block else_block : Block) {c d : ℕ}
        (s : Ladder)
        → IsNamed a v c
        → Weighs (tally_block join declares uses then_block) c d
        → Weighs (tally_block join declares uses else_block) d s.variable_counter
        → Runs
            (λ t s'. Weighs (tally_stmt join declares uses t) c s'.variable_counter)
            (block_statement recall then_loc else_loc v then_block else_block s)
    unfolding block_statement tally
    block_statement-Costs then_loc else_loc v then_block else_block {c} {d} s u p q =
        merge_locations-Runs _ then_loc else_loc s (
          bool_type-IsQuiet recall _ s ▷ λ ty s₁ r₁. bool_literal-Costs true _ s₁ ▷ λ l s₂ (w₂, r₂).
          bool_arm-of true _ else_block s₂ ▷ λ broken s₃ (w₃, r₃).
          bool_arm-of false _ then_block s₃ ▷ λ unbroken s₄ (w₄, r₄).
          unknown_type-IsQuiet recall _ s₄ ▷ λ ty₁ s₅ r₅. returns (
            rw (w₂, w₃, w₄)
              (seq (seq (u c (omega arith)) (nothing a))
                (swapped (seq (in_arm p) (nothing a)) (in_arm (late q (omega arith)))))))

    pub push_blocks-Costs :
        (scope : Block) (v : Var) (then_block else_block : Option Block) {b c d : ℕ} (s : Ladder)
        → IsNamed a v c
        → Weighs (tally_block join declares uses scope) b c
        → Weighs (weight_else then_block) c d
        → Weighs (weight_else else_block) d s.variable_counter
        → Runs
            (λ x s'. Weighs (tally_block join declares uses x) b s'.variable_counter)
            (push_blocks recall scope v then_block else_block s)
    unfolding push_blocks tally
    push_blocks-Costs scope v none none s u p q r =
        returns (late p (omega (arith, forth q, forth r)))
    push_blocks-Costs scope v (some t) none s u p q r =
        block_statement-Costs (block_location t) (block_location t) v t (empty _) s u q r
        ▷ λ x s' w. returns (push-Weighs scope x p w)
    push_blocks-Costs scope v none (some e) s u p q r =
        block_statement-Costs (block_location e) (block_location e) v (empty _) e s u q r
        ▷ λ x s' w. returns (push-Weighs scope x p w)
    push_blocks-Costs scope v (some t) (some e) s u p q r =
        block_statement-Costs (block_location t) (block_location e) v t e s u q r ▷ λ x s' w.
        returns (push-Weighs scope x p w)

    pub visit_then_and_else-Costs :
        (scope : Block) (v : Var) (then_ else_ : Lower (Option Block)) {b : ℕ} (s : Ladder)
        → IsNamed a v s.variable_counter
        → Costs weight_else then_
        → Costs weight_else else_
        → Weighs (tally_block join declares uses scope) b s.variable_counter
        → Runs
            (λ x s'. Weighs (tally_block join declares uses x) b s'.variable_counter)
            (visit_then_and_else recall scope v then_ else_ s)
    unfolding visit_then_and_else
    visit_then_and_else-Costs scope v then_ else_ s u t e p =
        t s ▷ λ tb s₁ q. e s₁ ▷ λ eb s₂ r. push_blocks-Costs scope v tb eb s₂ u p q r

    pub or_empty-Costs :
        (loc : Ast.Location) {m : Lower (Option Block)}
        → Costs weight_else m
        → Costs (tally_block join declares uses) (m >>= λ e. pure (or_empty loc e))
    unfolding or_empty tally
    or_empty-Costs loc m s = m s ▷ or_empty_lem
      where
        or_empty_lem :
            (e : Option Block) (s' : Ladder)
            → Weighs (weight_else e) s.variable_counter s'.variable_counter
            → Runs
                (λ b s''.
                  Weighs (tally_block join declares uses b) s.variable_counter s''.variable_counter)
                (pure (or_empty loc e) s')
        or_empty_lem none s' p = returns p
        or_empty_lem (some b) s' p = returns p

    -- The condition stands in front of the arms, and is visited behind them.
    pub visit_if_only-Costs :
        (loc cond_loc : Ast.Location) {cond : Lower Expr} {body : Lower Block}
        {else_ : Lower (Option Block)}
        → Costs weight_of cond
        → Costs (tally_block join declares uses) body
        → Costs weight_else else_
        → Costs weight_of (visit_if_only recall loc cond_loc cond body else_)
    unfolding visit_if_only tally
    visit_if_only-Costs loc cond_loc cond body else_ s =
        bool_arm-Costs true cond_loc body s ▷ λ on_true s₁ p.
        bool_arm-Costs false cond_loc (or_empty-Costs cond_loc else_) s₁ ▷ λ on_false s₂ q.
        cond s₂ ▷ λ e s₃ r. unknown_type-IsQuiet recall loc s₃ ▷ λ ty s₄ t.
        returns (swapped (seq p (seq q (nothing a))) (kept a r t))

    pub else_arms-Costs :
        {m : Lower (Option Block)}
        → Costs weight_else m
        → Costs (tally_arms join declares uses) (m >>= else_arms recall)
    unfolding else_arms tally
    else_arms-Costs m s = m s ▷ else_arms_lem
      where
        else_arms_lem :
            (e : Option Block) (s' : Ladder)
            → Weighs (weight_else e) s.variable_counter s'.variable_counter
            → Runs
                (λ x s''.
                  Weighs (tally_arms join declares uses x) s.variable_counter s''.variable_counter)
                (else_arms recall e s')
        else_arms_lem none s' p = returns p
        else_arms_lem (some b) s' p =
            guarded_arm-Costs no_expr b _ s' (seq (nothing a) p) ▷ λ m s'' q.
            returns (seq q (nothing a))

    pub visit_if_guards-Costs :
        (loc : Ast.Location) {arms : Lower Arms}
        → Costs (tally_arms join declares uses) arms
        → Costs weight_of (visit_if_guards recall loc arms)
    unfolding visit_if_guards tally
    visit_if_guards-Costs loc arms s = arms s ▷ λ x s₁ p.
        bool_literal-Costs true loc s₁ ▷ λ l s₂ (w, q).
        unknown_type-IsQuiet recall loc s₂ ▷ λ ty s₃ r.
        returns (rw w (seq (nothing a) (kept a p (r ∙ q))))
