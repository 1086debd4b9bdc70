-- ===== src/TreePrint/Ambiguous.antt =====
-- Parentheses that the printer (src/TIPtreePrint.cpp) leaves out.
use tipc.Prelude.{ℕ, String, ◌≡◌, ◌≢◌, refl}
use tipc.Tree.{Expr, Exprs, fun_app_expr, alloc_expr, de_ref_expr, access_expr}
use tipc.TreePrint.{print_expr}

-- A call of the function that `e` points to prints like the dereference of what `e` returns, a
-- field of the record that `e` points to like the dereference of a field of `e`, and a call of an
-- allocated cell like the allocation of a call, although the trees differ.
pub print_expr_ambiguous :
    (i j : ℕ) (e : Expr) (es : Exprs) (f : String)
    → (print_expr (fun_app_expr i (de_ref_expr j e) es)
        ≡ print_expr (de_ref_expr i (fun_app_expr j e es)))
      × (fun_app_expr i (de_ref_expr j e) es ≢ de_ref_expr i (fun_app_expr j e es))
      × (print_expr (access_expr i (de_ref_expr j e) f)
          ≡ print_expr (de_ref_expr i (access_expr j e f)))
      × (access_expr i (de_ref_expr j e) f ≢ de_ref_expr i (access_expr j e f))
      × (print_expr (fun_app_expr i (alloc_expr j e) es)
          ≡ print_expr (alloc_expr i (fun_app_expr j e es)))
      × (fun_app_expr i (alloc_expr j e) es ≢ alloc_expr i (fun_app_expr j e es))
unfolding print_expr
print_expr_ambiguous i j e es f = (refl, (λ d. cc), refl, (λ d. cc), refl, (λ d. cc))
