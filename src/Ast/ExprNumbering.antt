-- ===== src/Ast/ExprNumbering.antt =====
-- `genId` on the expressions of a tree that has no ids yet.
use tipc.Prelude.{ℕ, suc, ◌≡◌, refl, ap, ap₂, none, some, [], ◌∷◌, String, String_eq, Option}
use tipc.Prelude.Dict.{lookup}
use tipc.Prelude.Result.{Post, returns, throws}
use tipc.Unify.Laws.{IsTypeError}
use tipc.Ast.Reached.{RefsSet, AllRefsSet}
use tipc.Ast.{entry_of, found_fun, found_var, GenState, resolve, gen_expr, gen_exprs, var_entry}
use tipc.Ast.Erase.{erase_expr, erase_exprs, erase_expr_twice, erase_fields_twice}
use tipc.Ast.Numbering.{Ran, Ran-refl, Ran-append, expr_ids, exprs_ids}
use tipc.Prelude.State.{◌⇒◌}
use tipc.Tree.{
  Expr, Exprs, number_expr, variable_expr, binary_expr, fun_app_expr, input_expr, alloc_expr,
  ref_expr, de_ref_expr, null_expr, field_expr, record_expr, access_expr, no_exprs, exprs, field,
}

-- The result has the shape of `e`, consecutive ids, and a number in every reference that `genId`
-- reaches.
pub record ExprNumbered (e : Expr) (s : GenState) (r : Expr × GenState) : Type 0 where
  pub shape : erase_expr r.0 ≡ erase_expr e
  pub ran : Ran s (expr_ids r.0) r.1
  pub refs : RefsSet r.0

record ExprsNumbered (es : Exprs) (s : GenState) (r : Exprs × GenState) : Type 0 where
  shape : erase_exprs r.0 ≡ erase_exprs es
  ran : Ran s (exprs_ids r.0) r.1
  refs : AllRefsSet r.0

-- The number that `ast_counter++` gives out.
pub Ran-next :
    (s : GenState) → Ran s (s.ast_counter ∷ []) (record s { ast_counter = suc s.ast_counter })
Ran-next s = record { gives = (refl, refl); same_functions = refl }

var_entry-Ran : (x : String) (s : GenState) → Post (λ r. Ran s [] r.1) IsTypeError (var_entry x s)
var_entry-Ran x s =
    elim (lookup x s.var2id) as (λ o. Post (λ r. Ran s [] r.1) IsTypeError (entry_of o x s)) [
      | none ↦ returns (record { gives = refl; same_functions = refl })
      | some n ↦ returns Ran-refl
    ]

resolve-Ran : (x : String) (s : GenState) → Post (λ r. Ran s [] r.1) IsTypeError (resolve x s)
unfolding resolve
resolve-Ran x s = by_variable (lookup x s.var2id)
  where
    by_function : (o : Option ℕ) → Post (λ r. Ran s [] r.1) IsTypeError (found_fun o x s)
    by_function none = throws (_, refl)
    by_function (some n) = returns Ran-refl

    by_variable : (o : Option ℕ) → Post (λ r. Ran s [] r.1) IsTypeError (found_var o x s)
    by_variable none = by_function (lookup x s.fun2id)
    by_variable (some n) = returns Ran-refl

mutual
  unfolding gen_expr erase_expr expr_ids RefsSet

  numbered :
      (e : Expr) (s : GenState) → Post (ExprNumbered e s) IsTypeError (gen_expr (erase_expr e) s)
  numbered (number_expr i v) s = returns (record { shape = refl; ran = Ran-next s; refs = tt })
  numbered (variable_expr i x) s =
      resolve-Ran x s ⇒ λ n s' h. returns (record { shape = refl; ran = h; refs = tt })
  numbered (binary_expr i op l r) s = numbered l _ ⇒ λ l' s₁ h. numbered r s₁ ⇒ λ r' s₂ k.
      returns (record {
        shape = ap₂ (binary_expr 0 op) h.shape k.shape;
        ran = Ran-append (Ran-next s) (Ran-append h.ran k.ran);
        refs = (h.refs, k.refs);
      })
  numbered (fun_app_expr i f es) s = all_numbered es _ ⇒ λ es' s₁ h. numbered f s₁ ⇒ λ f' s₂ k.
      returns (record {
        shape = ap₂ (fun_app_expr 0) k.shape h.shape;
        ran = Ran-append (Ran-next s) (Ran-append h.ran k.ran);
        refs = (h.refs, k.refs);
      })
  numbered (input_expr i) s = returns (record { shape = refl; ran = Ran-next s; refs = tt })
  numbered (alloc_expr i e) s = numbered e _ ⇒ λ e' s₁ h. returns (record {
    shape = ap (alloc_expr 0) h.shape;
    ran = Ran-append (Ran-next s) h.ran;
    refs = h.refs;
  })
  numbered (ref_expr i x r) s = var_entry-Ran x _ ⇒ λ n s₁ h.
      returns (record { shape = refl; ran = Ran-append (Ran-next s) h; refs = tt })
  numbered (de_ref_expr i e) s = numbered e _ ⇒ λ e' s₁ h. returns (record {
    shape = ap (de_ref_expr 0) h.shape;
    ran = Ran-append (Ran-next s) h.ran;
    refs = h.refs;
  })
  numbered (null_expr i) s = returns (record { shape = refl; ran = Ran-next s; refs = tt })
  numbered (field_expr (field i f e)) s =
      returns
        (record { shape = rw (erase_expr_twice e); ran = Ran-next s; refs = erase_expr_twice e })
  numbered (record_expr i fs) s = returns (record {
    shape = rw (erase_fields_twice fs);
    ran = Ran-next s;
    refs = erase_fields_twice fs;
  })
  numbered (access_expr i e f) s =
      returns
        (record { shape = rw (erase_expr_twice e); ran = Ran-next s; refs = erase_expr_twice e })

  all_numbered :
      (es : Exprs) (s : GenState)
      → Post (ExprsNumbered es s) IsTypeError (gen_exprs (erase_exprs es) s)
  all_numbered no_exprs s = returns (record { shape = refl; ran = Ran-refl; refs = tt })
  all_numbered (exprs e es) s = numbered e s ⇒ λ e' s₁ h. all_numbered es s₁ ⇒ λ es' s₂ k.
      returns (record {
        shape = ap₂ exprs h.shape k.shape;
        ran = Ran-append h.ran k.ran;
        refs = (h.refs, k.refs);
      })

pub gen_expr-Numbered :
    (e : Expr) (s : GenState) → Post (ExprNumbered e s) IsTypeError (gen_expr (erase_expr e) s)
gen_expr-Numbered = numbered
