-- ===== src/Auth/Check/Leaf.antt =====
-- One required permission: a matching deny statement wins, otherwise a matching statement allows.
use jiaozifs.Prelude.{
  ℕ, ◌≤◌, ◌≡◌, ◌≢◌, ap, ◌∙◌, ◌↔◌, refl, Bool, true, false, ◌&&◌, ◌||◌, List, [], ◌∷◌, ◌++◌, arith,
}
use jiaozifs.Prelude.{if◌then◌else◌, Text, text_eq, text_eq_iff, Any, Any-cons}
use jiaozifs.Auth.Model.{effect_deny, Statement, Policy}
use jiaozifs.Auth.Wildcard
use jiaozifs.Auth.Arn.{arn_match}
use jiaozifs.Auth.Check.{
  CheckResult, allow, neutral, deny, Permission, ResourceParams, render, check_actions, or_return,
  check_statements, check_policies,
}

-- How far a result is from leaving the question open: a denial outranks a permission.
abbrev pub rank : CheckResult → ℕ
rank neutral = 0
rank allow = 1
rank deny = 2

abbrev verdict : Bool → Bool → CheckResult → CheckResult
verdict denied granted start = if denied then deny else if granted then allow else start

-- One round of a loop over statements or policies, with the verdicts of the round and of the rest.
round-verdict :
    (d g d' g' : Bool) (start : CheckResult) (rest : CheckResult → CheckResult)
    → start ≢ deny
    → ((a : CheckResult) → a ≢ deny → rest a ≡ verdict d' g' a)
    → or_return (verdict d g start) (rest (verdict d g start)) ≡ verdict (d || d') (g || g') start
unfolding or_return
round-verdict true g d' g' start rest h ih = refl
round-verdict false true d' g' start rest h ih = ground (arith, ih allow)
round-verdict false false d' g' neutral rest h ih = ground (arith, ih neutral)
round-verdict false false d' g' allow rest h ih = ground (arith, ih allow)
round-verdict false false d' g' deny rest h ih = absurd (h refl)

module _ (perm : Permission) (params : ResourceParams) where
  -- The statement speaks of the permission: its rendered resource and one of its actions match.
  pub record Applies (stmt : Statement) : Type 0 where
    pub resource : arn_match (render params stmt.resource) perm.resource ≡ true
    pub action : Any (λ a. Wildcard.match a perm.action ≡ true) stmt.actions

  abbrev pub Denying : Statement → Type 0
  Denying stmt = Applies stmt × (stmt.effect ≡ effect_deny)

  -- Some policy has a statement with the property.
  abbrev pub Some : (Statement → Type 0) → List Policy → Type 0
  Some P = Any (λ p. Any P p.statements)

  any_action : List Text → Bool
  any_action [] = false
  any_action (a ∷ actions) = Wildcard.match a perm.action || any_action actions

  applies : Statement → Bool
  applies stmt = arn_match (render params stmt.resource) perm.resource && any_action stmt.actions

  -- What the three loops compute, as tests of the whole list.
  any_denying : List Statement → Bool
  any_denying [] = false
  any_denying (stmt ∷ stmts) = applies stmt && text_eq stmt.effect effect_deny || any_denying stmts

  any_applying : List Statement → Bool
  any_applying [] = false
  any_applying (stmt ∷ stmts) = applies stmt || any_applying stmts

  some_denying : List Policy → Bool
  some_denying [] = false
  some_denying (p ∷ policies) = any_denying p.statements || some_denying policies

  some_applying : List Policy → Bool
  some_applying [] = false
  some_applying (p ∷ policies) = any_applying p.statements || some_applying policies

  check_actions-verdict :
      (effect : Text) (actions : List Text) (start : CheckResult)
      → check_actions effect perm.action actions start
        ≡ verdict (any_action actions && text_eq effect effect_deny) (any_action actions) start
  unfolding check_actions any_action
  check_actions-verdict effect [] start = refl
  check_actions-verdict effect (a ∷ actions) start = ground (
    arith,
    check_actions-verdict effect actions start,
    check_actions-verdict effect actions allow,
  )

  check_statement-verdict :
      (stmt : Statement) (start : CheckResult)
      → (if arn_match (render params stmt.resource) perm.resource
          then check_actions stmt.effect perm.action stmt.actions start
          else start)
        ≡ verdict (applies stmt && text_eq stmt.effect effect_deny) (applies stmt) start
  unfolding applies
  check_statement-verdict stmt start =
      ground (arith, check_actions-verdict stmt.effect stmt.actions start)

  check_statements-verdict :
      (stmts : List Statement) (start : CheckResult)
      → start ≢ deny
      → check_statements perm params stmts start
        ≡ verdict (any_denying stmts) (any_applying stmts) start
  unfolding check_statements or_return any_denying any_applying applies
  check_statements-verdict [] start h = refl
  check_statements-verdict (s ∷ stmts) start h =
      ap (λ r. or_return r (check_statements perm params stmts r)) (check_statement-verdict s start)
      ∙ round-verdict (applies s && text_eq s.effect effect_deny) (applies s) (any_denying stmts)
          (any_applying stmts) start (check_statements perm params stmts) h
          (check_statements-verdict stmts)

  check_policies-verdict :
      (policies : List Policy) (start : CheckResult)
      → start ≢ deny
      → check_policies perm params policies start
        ≡ verdict (some_denying policies) (some_applying policies) start
  unfolding check_policies or_return some_denying some_applying
  check_policies-verdict [] start h = refl
  check_policies-verdict (p ∷ policies) start h =
      ap (λ r. or_return r (check_policies perm params policies r))
        (check_statements-verdict p.statements start h)
      ∙ round-verdict (any_denying p.statements) (any_applying p.statements) (some_denying policies)
          (some_applying policies) start (check_policies perm params policies) h
          (check_policies-verdict policies)

  any_action_iff :
      (actions : List Text)
      → (any_action actions ≡ true) ↔ Any (λ a. Wildcard.match a perm.action ≡ true) actions
  unfolding any_action
  any_action_iff [] = (λ e. cc, λ a. elim a [ ])
  any_action_iff (a ∷ actions) =
      ground (
        arith,
        any_action_iff actions,
        Any-cons (λ b. Wildcard.match b perm.action ≡ true) a actions,
      )

  applies_iff : (stmt : Statement) → (applies stmt ≡ true) ↔ Applies stmt
  unfolding applies
  applies_iff stmt = (
    λ e. record {
      resource = ground arith;
      action = (any_action_iff stmt.actions).0 (ground arith);
    },
    λ a. ground (arith, any_action_iff stmt.actions, a.resource, a.action),
  )

  any_denying_iff : (stmts : List Statement) → (any_denying stmts ≡ true) ↔ Any Denying stmts
  unfolding any_denying
  any_denying_iff [] = (λ e. cc, λ a. elim a [ ])
  any_denying_iff (s ∷ stmts) = ground (
    arith,
    applies_iff s,
    text_eq_iff s.effect effect_deny,
    any_denying_iff stmts,
    Any-cons Denying s stmts,
  )

  any_applying_iff : (stmts : List Statement) → (any_applying stmts ≡ true) ↔ Any Applies stmts
  unfolding any_applying
  any_applying_iff [] = (λ e. cc, λ a. elim a [ ])
  any_applying_iff (s ∷ stmts) =
      ground (arith, applies_iff s, any_applying_iff stmts, Any-cons Applies s stmts)

  some_denying_iff : (ps : List Policy) → (some_denying ps ≡ true) ↔ Some Denying ps
  unfolding some_denying
  some_denying_iff [] = (λ e. cc, λ a. elim a [ ])
  some_denying_iff (p ∷ ps) = ground (
    arith,
    any_denying_iff p.statements,
    some_denying_iff ps,
    Any-cons (λ (q : Policy). Any Denying q.statements) p ps,
  )

  some_applying_iff : (ps : List Policy) → (some_applying ps ≡ true) ↔ Some Applies ps
  unfolding some_applying
  some_applying_iff [] = (λ e. cc, λ a. elim a [ ])
  some_applying_iff (p ∷ ps) = ground (
    arith,
    any_applying_iff p.statements,
    some_applying_iff ps,
    Any-cons (λ (q : Policy). Any Applies q.statements) p ps,
  )

  -- A permission is denied exactly if some statement that applies denies, and start exactly if
  -- none denies and some statement applies.
  pub check_policies_iff :
      (policies : List Policy)
      → ((check_policies perm params policies neutral ≡ deny) ↔ Some Denying policies)
        × ((check_policies perm params policies neutral ≡ allow)
            ↔ (¬ Some Denying policies × Some Applies policies))
  check_policies_iff ps =
      ground (arith, check_policies-verdict ps neutral, some_denying_iff ps, some_applying_iff ps)

  some_denying-append :
      (ps qs : List Policy) → some_denying (ps ++ qs) ≡ (some_denying ps || some_denying qs)
  unfolding some_denying
  some_denying-append [] qs = refl
  some_denying-append (p ∷ ps) qs = ground (arith, some_denying-append ps qs)

  some_applying-append :
      (ps qs : List Policy) → some_applying (ps ++ qs) ≡ (some_applying ps || some_applying qs)
  unfolding some_applying
  some_applying-append [] qs = refl
  some_applying-append (p ∷ ps) qs = ground (arith, some_applying-append ps qs)

  pub rank-check_policies-append :
      (ps qs : List Policy)
      → rank (check_policies perm params ps neutral)
        ≤ rank (check_policies perm params (ps ++ qs) neutral)
  rank-check_policies-append ps qs = ground (
    arith,
    check_policies-verdict ps neutral,
    check_policies-verdict (ps ++ qs) neutral,
    some_denying-append ps qs,
    some_applying-append ps qs,
  )
