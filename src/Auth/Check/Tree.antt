-- ===== src/Auth/Check/Tree.antt =====
-- Trees of required permissions: what `or` and `and` nodes answer, and how answers grow.
use jiaozifs.Prelude.{◌≤◌, ◌≡◌, ◌≢◌, ◌↔◌, ◌⊎◌, inl, inr, refl, List, ◌++◌, arith}
use jiaozifs.Auth.Model.{Policy}
use jiaozifs.Auth.Check.{
  CheckResult, allow, neutral, deny, Node, Nodes, node, or_node, and_node, unknown, nil, cons,
  ResourceParams, or_return, keep_allow, check_permissions, check_any, check_all,
}
use jiaozifs.Auth.Check.Leaf.{rank, rank-check_policies-append}

abbrev pub AnyNode : (Node → Type 0) → Nodes → Type 0
AnyNode P nil = ⊥
AnyNode P (cons n nodes) = P n ⊎ AnyNode P nodes

abbrev pub AllNodes : (Node → Type 0) → Nodes → Type 0
AllNodes P nil = Unit
AllNodes P (cons n nodes) = P n × AllNodes P nodes

result_cases : (r : CheckResult) → (r ≡ allow) ⊎ ((r ≡ neutral) ⊎ (r ≡ deny))
result_cases allow = inl refl
result_cases neutral = inr (inl refl)
result_cases deny = inr (inr refl)

module _ (params : ResourceParams) (policies : List Policy) where
  abbrev pub Answers : CheckResult → Node → Type 0
  Answers r n = check_permissions n params policies ≡ r

  check_any_iff :
      (nodes : Nodes) (start : CheckResult)
      → start ≢ deny
      → ((check_any nodes params policies start ≡ deny) ↔ AnyNode (Answers deny) nodes)
        × ((check_any nodes params policies start ≡ allow)
            ↔ (¬ AnyNode (Answers deny) nodes × ((start ≡ allow) ⊎ AnyNode (Answers allow) nodes)))
  unfolding check_any or_return keep_allow
  check_any_iff nil start h = ground arith
  check_any_iff (cons n nodes) start h = ground (
    arith,
    check_any_iff nodes start,
    check_any_iff nodes (check_permissions n params policies),
    result_cases start,
    result_cases (check_permissions n params policies),
  )

  -- An `or` node is denied exactly if some child is, and allowed exactly if no child is denied and
  -- some child is allowed.
  pub or_node_iff :
      (nodes : Nodes)
      → ((check_permissions (or_node nodes) params policies ≡ deny) ↔ AnyNode (Answers deny) nodes)
        × ((check_permissions (or_node nodes) params policies ≡ allow)
            ↔ (¬ AnyNode (Answers deny) nodes × AnyNode (Answers allow) nodes))
  unfolding check_permissions
  or_node_iff nodes = ground (arith, check_any_iff nodes neutral)

  -- The first child that is not allowed is denied.
  abbrev pub DeniedFirst : Nodes → Type 0
  DeniedFirst nil = ⊥
  DeniedFirst (cons n nodes) = Answers deny n ⊎ Answers allow n × DeniedFirst nodes

  -- An `and` node is allowed exactly if every child is, and denied exactly if the first child that
  -- is not allowed is denied.
  pub and_node_iff :
      (nodes : Nodes)
      → ((check_permissions (and_node nodes) params policies ≡ allow)
          ↔ AllNodes (Answers allow) nodes)
        × ((check_permissions (and_node nodes) params policies ≡ deny) ↔ DeniedFirst nodes)
  unfolding check_permissions check_all
  and_node_iff nil = ((λ _. tt, λ _. refl), (λ e. cc, λ d. absurd d))
  and_node_iff (cons n nodes) =
      ground (arith, and_node_iff nodes, result_cases (check_permissions n params policies))

rank-le-two : (r : CheckResult) → rank r ≤ 2
rank-le-two allow = omega arith
rank-le-two neutral = omega arith
rank-le-two deny = omega arith

-- Results that are no denial, one below the other.
abbrev Below : CheckResult → CheckResult → Type 0
Below a b = (rank a ≤ rank b) × (a ≢ deny) × (b ≢ deny)

keep_allow-Below :
    (a b x y : CheckResult) → Below a b → Below x y → Below (keep_allow a x) (keep_allow b y)
unfolding keep_allow
keep_allow-Below allow allow x y h k = h
keep_allow-Below allow neutral x y h k = absurd (omega arith)
keep_allow-Below neutral allow allow y h k = (omega arith, λ e. cc, λ e. cc)
keep_allow-Below neutral allow neutral y h k = (omega arith, λ e. cc, λ e. cc)
keep_allow-Below neutral allow deny y h k = absurd (k.1 refl)
keep_allow-Below neutral neutral x y h k = k
keep_allow-Below deny b x y h k = absurd (h.1 refl)
keep_allow-Below a deny x y h k = absurd (h.2 refl)

-- One round of the loop of an `or` node, for two lists of policies.
any_step :
    (x y a b : CheckResult) (f g : CheckResult → CheckResult)
    → rank x ≤ rank y
    → Below a b
    → ((a' b' : CheckResult) → Below a' b' → rank (f a') ≤ rank (g b'))
    → rank (or_return x (f (keep_allow a x))) ≤ rank (or_return y (g (keep_allow b y)))
unfolding or_return
any_step x deny a b f g h k ih = rank-le-two _
any_step deny allow a b f g h k ih = absurd (omega arith)
any_step deny neutral a b f g h k ih = absurd (omega arith)
any_step allow neutral a b f g h k ih = absurd (omega arith)
any_step allow allow a b f g h k ih =
    ih _ _ (keep_allow-Below a b allow allow k (h, λ e. cc, λ e. cc))
any_step neutral allow a b f g h k ih =
    ih _ _ (keep_allow-Below a b neutral allow k (h, λ e. cc, λ e. cc))
any_step neutral neutral a b f g h k ih =
    ih _ _ (keep_allow-Below a b neutral neutral k (h, λ e. cc, λ e. cc))

-- One round of the loop of an `and` node.
abbrev and_then : CheckResult → CheckResult → CheckResult
and_then x rest = elim x [ allow ↦ rest | neutral ↦ neutral | deny ↦ deny ]

all_step :
    (x y r s : CheckResult)
    → rank x ≤ rank y
    → rank r ≤ rank s
    → rank (and_then x r) ≤ rank (and_then y s)
all_step allow allow r s h k = k
all_step allow deny r s h k = rank-le-two _
all_step neutral y r s h k = omega arith
all_step deny deny r s h k = omega arith
all_step x y r s h k = absurd (omega arith)

module _ (params : ResourceParams) (ps qs : List Policy) where
  mutual
    unfolding check_permissions check_any check_all

    grows :
        (n : Node)
        → rank (check_permissions n params ps) ≤ rank (check_permissions n params (ps ++ qs))
    grows (node perm) = rank-check_policies-append perm params ps qs
    grows (or_node nodes) = grows_any nodes neutral neutral (omega arith, λ e. cc, λ e. cc)
    grows (and_node nodes) = grows_all nodes
    grows unknown = omega arith

    grows_any :
        (nodes : Nodes) (a b : CheckResult)
        → Below a b
        → rank (check_any nodes params ps a) ≤ rank (check_any nodes params (ps ++ qs) b)
    grows_any nil a b h = h.0
    grows_any (cons n nodes) a b h =
        any_step (check_permissions n params ps) (check_permissions n params (ps ++ qs)) a b
          (check_any nodes params ps) (check_any nodes params (ps ++ qs)) (grows n) h
          (grows_any nodes)

    grows_all :
        (nodes : Nodes)
        → rank (check_all nodes params ps) ≤ rank (check_all nodes params (ps ++ qs))
    grows_all nil = omega arith
    grows_all (cons n nodes) =
        all_step (check_permissions n params ps) (check_permissions n params (ps ++ qs))
          (check_all nodes params ps) (check_all nodes params (ps ++ qs)) (grows n)
          (grows_all nodes)

-- More policies never lower an answer: a denial stays a denial, and a permission stays one or
-- becomes a denial, for every tree of required permissions.
pub rank-check_permissions-append :
    (params : ResourceParams) (ps qs : List Policy) (n : Node)
    → rank (check_permissions n params ps) ≤ rank (check_permissions n params (ps ++ qs))
rank-check_permissions-append params ps qs n = grows params ps qs n
