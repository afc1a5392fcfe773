-- ===== src/Rules/Evaluation/Laws.antt =====
-- The verdict of src/rules.rs over the results of all rules.
use mintpool.Prelude.{
  ◌≡◌, ◌↔◌, ◌⊎◌, inl, inr, refl, Bool, true, false, not, ◌&&◌, [], ◌∷◌, Result, ok, err, any, All,
  any-false_iff, is_err as failed, product_iff, iff_trans,
}
use mintpool.Types.Data.{Report}
use mintpool.Rules.Evaluation.{
  Evaluation, accept, ignore, reject, Results, rejects, is_err, is_accept,
}

-- The rule ran, and did not reject.
abbrev pub Passes : Result Evaluation Report → Type 0
Passes (ok accept) = Unit
Passes (ok (ignore r)) = Unit
Passes (ok (reject r)) = ⊥
Passes (err e) = ⊥

Passes-iff : (r : Result Evaluation Report) → ((failed r ≡ false) × (rejects r ≡ false)) ↔ Passes r
Passes-iff (ok accept) = ((λ _. tt), (λ _. (refl, refl)))
Passes-iff (ok (ignore r)) = ((λ _. tt), (λ _. (refl, refl)))
Passes-iff (ok (reject r)) = ((λ h. cc h.1), (λ h. absurd h))
Passes-iff (err e) = ((λ h. cc h.0), (λ h. absurd h))

All-Passes_iff :
    (rs : Results)
    → (All (λ r. failed r.result ≡ false) rs × All (λ r. rejects r.result ≡ false) rs)
      ↔ All (λ r. Passes r.result) rs
All-Passes_iff [] = ((λ _. tt), (λ _. (tt, tt)))
All-Passes_iff (r ∷ rs) =
    let one = Passes-iff r.result in
    let rest = All-Passes_iff rs in
    (
      (λ h. (one.0 (h.0.0, h.1.0), rest.0 (h.0.1, h.1.1))),
      (λ h. let a = one.1 h.0 in let b = rest.1 h.1 in ((a.0, b.0), (a.1, b.1))),
    )

verdict_iff : (e r : Bool) → (not (not e && r) ≡ true) ↔ ((e ≡ true) ⊎ (r ≡ false))
verdict_iff true r = ((λ _. inl refl), (λ _. refl))
verdict_iff false true = ((λ h. cc h), (λ h. elim h [ inl e ↦ cc e | inr e ↦ cc e ]))
verdict_iff false false = ((λ _. inr refl), (λ _. refl))

verdict-clean :
    (e r : Bool) → ((e ≡ false) × (not (not e && r) ≡ true)) ↔ ((e ≡ false) × (r ≡ false))
verdict-clean true r = ((λ h. cc h.0), (λ h. cc h.0))
verdict-clean false true = ((λ h. cc h.1), (λ h. cc h.1))
verdict-clean false false = ((λ _. (refl, refl)), (λ _. (refl, refl)))

-- The results are accepted exactly when some rule failed with an error, whatever the others say, or
-- none rejects.
pub is_accept_iff :
    (rs : Results)
    → (is_accept rs ≡ true) ↔ ((is_err rs ≡ true) ⊎ All (λ r. rejects r.result ≡ false) rs)
unfolding is_accept
is_accept_iff rs =
    let none_rejects = any-false_iff (λ r. rejects r.result) rs in
    let verdict = verdict_iff (is_err rs) (any (λ r. rejects r.result) rs) in
    (
      (λ h. elim (verdict.0 h) [ inl e ↦ inl e | inr n ↦ inr (none_rejects.0 n) ]),
      (λ h. verdict.1 (elim h [ inl e ↦ inl e | inr n ↦ inr (none_rejects.1 n) ])),
    )

-- No rule failed and the results are accepted exactly when every rule passes.
pub is_accept-Passes :
    (rs : Results) → ((is_err rs ≡ false) × (is_accept rs ≡ true)) ↔ All (λ r. Passes r.result) rs
unfolding is_accept
is_accept-Passes rs = iff_trans (verdict-clean (is_err rs) (any (λ r. rejects r.result) rs)) (
    iff_trans
      (product_iff (any-false_iff (λ r. failed r.result) rs)
        (any-false_iff (λ r. rejects r.result) rs))
      (All-Passes_iff rs))
