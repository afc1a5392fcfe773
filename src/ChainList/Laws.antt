-- ===== src/ChainList/Laws.antt =====
-- src/chain_list.rs: which URL a chain is reached by, and when it is reached.
use mintpool.Prelude.{
  ℕ, ◌≡◌, ◌↔◌, ◌⊎◌, refl, sym, ap, ◌∙◌, inl, inr, String, Bool, true, false, List, [], ◌∷◌, ◌++◌,
  Option, none, some, Result, ok, err, find, All, ◌==◌, Bool-cases,
}
use mintpool.Prelude.Utf8.{starts_with}
use mintpool.Types.Data.{Report}
use mintpool.ChainList.{
  Chain, get_chain_by_id, first_ws, url_of_chain, env_name, get_rpc_url, Connections, on_connected,
  on_cached, connect,
}
use mintpool.ChainList.Variables.{has_variable, has_variable_iff, HasVariable}

-- The first element of which the test holds.
pub record IsFirst {ℓ} {A : Type ℓ} (p : A → Bool) (xs : List A) (x : A) : Type ℓ where
  pub before : List A
  pub after : List A
  pub parts : xs ≡ before ++ x ∷ after
  pub skipped : All (λ y. p y ≡ false) before
  pub holds : p x ≡ true

IsFirst-cons {ℓ} :
    {A : Type ℓ} (p : A → Bool) (y : A) (xs : List A) (x : A)
    → p y ≡ false
    → IsFirst p xs x
    → IsFirst p (y ∷ xs) x
IsFirst-cons p y xs x h f = record {
  before = y ∷ f.before;
  after = f.after;
  parts = ap (λ ys. y ∷ ys) f.parts;
  skipped = (h, f.skipped);
  holds = f.holds;
}

find-IsFirst {ℓ} :
    {A : Type ℓ} (p : A → Bool) (xs : List A) (x : A) → find p xs ≡ some x → IsFirst p xs x
find-IsFirst p [] x h = cc h
find-IsFirst p (y ∷ xs) x h = elim (Bool-cases (p y)) [
  | inl y_holds ↦
      let same : y ≡ x = cc (rw y_holds at h) in
      record {
        before = [];
        after = xs;
        parts = ap (λ z. z ∷ xs) same;
        skipped = tt;
        holds = ap p (sym same) ∙ y_holds;
      }
  | inr later ↦ IsFirst-cons p y xs x later (find-IsFirst p xs x (rw later at h))
]

find_of_first {ℓ} :
    {A : Type ℓ} (p : A → Bool) (before after : List A) (x : A)
    → All (λ y. p y ≡ false) before
    → p x ≡ true
    → find p (before ++ x ∷ after) ≡ some x
find_of_first p [] after x h k = rw k
find_of_first p (y ∷ before) after x h k = rw h.0 (find_of_first p before after x h.1 k)

find-some_iff {ℓ} :
    {A : Type ℓ} (p : A → Bool) (xs : List A) (x : A) → (find p xs ≡ some x) ↔ IsFirst p xs x
find-some_iff p xs x = (
  find-IsFirst p xs x,
  (λ f. ap (find p) f.parts ∙ find_of_first p f.before f.after x f.skipped f.holds),
)

-- The URL of a find.
first_ws-find :
    (urls : List String) (url : String)
    → (first_ws urls ≡ ok url) ↔ (find (starts_with "ws") urls ≡ some url)
unfolding first_ws
first_ws-find [] url = ((λ h. cc h), (λ h. cc h))
first_ws-find (u ∷ urls) url = elim (Bool-cases (starts_with "ws" u)) [
  | inl here ↦ rw here ((λ h. cc h), (λ h. cc h))
  | inr later ↦ rw later (first_ws-find urls url)
]

-- Where the environment does not override it, a chain's URL is found exactly when some chain of the
-- list has the id, and it is the first URL of the first such chain that begins with "ws".
pub get_rpc_url-ok_iff :
    (env_var : String → Option String) (chains : List Chain) (chain_id : ℕ) (url : String)
    → env_var (env_name chain_id) ≡ none
    → (get_rpc_url env_var chains chain_id ≡ ok url) ↔ (
        (chain : Chain) × IsFirst (λ c. c.chain_id == chain_id) chains chain
        × IsFirst (starts_with "ws") chain.rpc url)
unfolding get_rpc_url get_chain_by_id url_of_chain
get_rpc_url-ok_iff env_var chains chain_id url unset =
    rw unset (by_chain (find (λ c. c.chain_id == chain_id) chains) refl)
  where
    by_chain :
        (o : Option Chain)
        → find (λ c. c.chain_id == chain_id) chains ≡ o
        → (url_of_chain chain_id o ≡ ok url) ↔ (
            (chain : Chain) × IsFirst (λ c. c.chain_id == chain_id) chains chain
            × IsFirst (starts_with "ws") chain.rpc url)
    by_chain none e =
        ((λ h. cc h), (λ h. cc (e, (find-some_iff (λ c. c.chain_id == chain_id) chains h.0).1 h.1)))
    by_chain (some chain) e = (
      (λ h. (
        chain,
        (find-some_iff (λ c. c.chain_id == chain_id) chains chain).0 e,
        (find-some_iff (starts_with "ws") chain.rpc url).0 ((first_ws-find chain.rpc url).0 h),
      )),
      (λ h.
          let same : chain ≡ h.0 =
            cc (e, (find-some_iff (λ c. c.chain_id == chain_id) chains h.0).1 h.1) in
          ap (λ (c : Chain). first_ws c.rpc) same
          ∙ (first_ws-find h.0.rpc url).1 ((find-some_iff (starts_with "ws") h.0.rpc url).1 h.2)),
    )

module _ {P : Type 0} (cache : String → Option P) (on_ws : String → Result P Report) where
  -- How the provider comes: from the cache, or by a connection that is then cached.
  abbrev pub CameBy : String → P → Connections P → Connections P → Type 0
  CameBy url p c c' =
      ((cache url ≡ some p) × (c' ≡ c))
      ⊎ ((cache url ≡ none)
          × (on_ws url ≡ ok p)
          × (c' ≡ record { made = c.made ++ url ∷ []; cached = c.cached ++ (url, p) ∷ [] }))

  on_connected-ok :
      (url : String) (r : Result P Report) (c : Connections P) (p : P)
      → cache url ≡ none
      → on_ws url ≡ r
      → (on_connected cache on_ws url r c).0 ≡ ok p
      → (cache url ≡ none)
        × (on_ws url ≡ ok p)
        × ((on_connected cache on_ws url r c).1
            ≡ record { made = c.made ++ url ∷ []; cached = c.cached ++ (url, p) ∷ [] })
  unfolding on_connected
  on_connected-ok url (ok q) c p e e' h =
      let same : q ≡ p = cc h in
      (
        e,
        e' ∙ h,
        ap (λ (p : P). record { made = c.made ++ url ∷ []; cached = c.cached ++ (url, p) ∷ [] })
            same,
      )
  on_connected-ok url (err d) c p e e' h = cc h

  on_cached-ok :
      (url : String) (o : Option P) (c : Connections P) (p : P)
      → cache url ≡ o
      → (on_cached cache on_ws url o c).0 ≡ ok p
      → CameBy url p c (on_cached cache on_ws url o c).1
  unfolding on_cached
  on_cached-ok url (some q) c p e h = inl (cc (e, h), refl)
  on_cached-ok url none c p e h = inr (on_connected-ok url (on_ws url) c p e refl h)

  -- A provider is given only for a URL without variables: from the cache, with nothing else done, or
  -- by one connection to that URL, which is then put in the cache.
  pub connect-ok :
      (url : String) (c : Connections P) (p : P)
      → (connect cache on_ws url c).0 ≡ ok p
      → ¬ HasVariable url × CameBy url p c (connect cache on_ws url c).1
  unfolding connect
  connect-ok url c p h = elim (Bool-cases (has_variable url)) [
    | inl y ↦ cc (rw y at h)
    | inr d ↦ (
      (λ v. cc ((has_variable_iff url).1 v, d)),
      rw d (on_cached-ok url (cache url) c p refl (rw d at h)),
    )
  ]
