-- ===== src/HttpRequest/Routes.antt =====
-- lib_http/http_request.h, http_request.cpp: routes, their order, and the choice of a handler. The
-- routes of a map are a list in the order in which the map is walked.
use sensor_libs.Prelude.{
  ℕ, ◌≤◌, ◌≢◌, ◌≡◌, ◌⊎◌, ==_iff, subst, inl, inr, refl, sym, ap, ap₂, ◌∙◌, Bool, true, false, not,
  ◌&&◌, ◌||◌, Option, none, some, List, [], ◌∷◌, ◌++◌, length, ◌==◌, ltb, if◌then◌else◌, arith,
  Bool-cases,
}

-- `tls_match` is 0 for no TLS, 1 for TLS only and 2 for both.
pub record MethodPath : Type 0 where
  pub method : ℕ
  pub path : List ℕ
  pub tls_match : ℕ

-- `<` on strings.
unfoldable pub is_less_path : List ℕ → List ℕ → Bool
is_less_path xs [] = false
is_less_path [] (y ∷ ys) = true
is_less_path (x ∷ xs) (y ∷ ys) = ltb x y || ((x == y) && is_less_path xs ys)

-- The order of the map's keys.
unfoldable pub is_less : MethodPath → MethodPath → Bool
unfolding is_less_path
is_less lhs rhs =
    ltb lhs.method rhs.method || ((lhs.method == rhs.method) && is_less_path lhs.path rhs.path)

-- The first bytes that differ of a pattern and a path, or those at the pattern's end; a 0 stands
-- behind the last byte of each.
unfoldable pub mismatch : List ℕ → List ℕ → ℕ × ℕ
mismatch [] [] = (0, 0)
mismatch [] (y ∷ ys) = (0, y)
mismatch (x ∷ xs) [] = (x, 0)
mismatch (x ∷ xs) (y ∷ ys) = elim (x == y) [ true ↦ mismatch xs ys | false ↦ (x, y) ]

unfoldable pub is_path_match : List ℕ → List ℕ → Bool
unfolding mismatch
is_path_match pattern path = let (x, y) = mismatch pattern path in (x == y) || (x == b'*')

unfoldable pub is_route_match : MethodPath → (method : ℕ) → (path : List ℕ) → (is_tls : Bool) → Bool
unfolding is_path_match
is_route_match mp method path is_tls =
    if ((mp.tls_match == 0) && is_tls) || ((mp.tls_match == 1) && not is_tls)
    then false
    else if ltb (length path) (length mp.path) || not (mp.method == method)
    then false
    else is_path_match mp.path path

unfoldable pub find_http_handler :
    {H : Type 0}
    → List (MethodPath × H)
    → (method : ℕ) → (path : List ℕ) → (is_tls : Bool) → Option H
unfolding is_route_match
find_http_handler [] method path is_tls = none
find_http_handler ((mp, handler) ∷ routes) method path is_tls =
    if is_route_match mp method path is_tls
    then some handler
    else find_http_handler routes method path is_tls

-- A path without the byte 0.
pub data NoZero : List ℕ → Type 0 where
  empty : NoZero []
  more : (c : ℕ) (cs : List ℕ) → c ≢ 0 → NoZero cs → NoZero (c ∷ cs)

-- A path that the pattern is, or that goes on otherwise where the pattern has a `*`.
abbrev pub PathMatch : List ℕ → List ℕ → Type 0
PathMatch pattern path =
    (pattern ≡ path)
    ⊎ ((pre after rest : List ℕ) × (c : ℕ) × (pattern ≡ pre ++ (b'*' ∷ after))
        × (path ≡ pre ++ (c ∷ rest))
        × (c ≢ b'*'))

-- Requests that a route takes.
pub record Serves (mp : MethodPath) (method : ℕ) (path : List ℕ) (is_tls : Bool) : Type 0 where
  pub same_method : mp.method ≡ method
  pub without_tls : (mp.tls_match ≢ 0) ⊎ (is_tls ≡ false)
  pub with_tls : (mp.tls_match ≢ 1) ⊎ (is_tls ≡ true)
  pub no_longer : length mp.path ≤ length path
  pub path_match : PathMatch mp.path path

true_is_false : true ≡ false → ⊥
true_is_false e = cc

PathMatch-cons : (x : ℕ) (xs ys : List ℕ) → PathMatch xs ys → PathMatch (x ∷ xs) (x ∷ ys)
PathMatch-cons x xs ys (inl e) = inl (ap (λ zs. x ∷ zs) e)
PathMatch-cons x xs ys (inr (pre, after, rest, c, e, f, h)) =
    inr (x ∷ pre, after, rest, c, ap (λ zs. x ∷ zs) e, ap (λ zs. x ∷ zs) f, h)

is_path_match-same :
    (x y : ℕ) (xs ys : List ℕ)
    → (x == y) ≡ true
    → is_path_match (x ∷ xs) (y ∷ ys) ≡ is_path_match xs ys
unfolding is_path_match mismatch
is_path_match-same x y xs ys e = rw (is_path_match, mismatch, e) refl

is_path_match-other :
    (x y : ℕ) (xs ys : List ℕ) → (x == y) ≡ false → is_path_match (x ∷ xs) (y ∷ ys) ≡ (x == b'*')
unfolding is_path_match mismatch
is_path_match-other x y xs ys e = rw (is_path_match, mismatch, e) (rw e refl)

is_path_match_lem :
    (pattern path : List ℕ)
    → NoZero path
    → length pattern ≤ length path
    → is_path_match pattern path ≡ true
    → PathMatch pattern path
unfolding is_path_match mismatch
is_path_match_lem [] [] n l e = inl refl
is_path_match_lem [] (y ∷ ys) (more c cs h n) l e = absurd (ground (arith, e, h))
is_path_match_lem (x ∷ xs) [] n l e = absurd (omega arith)
is_path_match_lem (x ∷ xs) (y ∷ ys) (more c cs h n) l e = elim (Bool-cases (x == y)) [
  | inl same ↦
      let rest =
        is_path_match_lem xs ys n (omega arith) (sym (is_path_match-same x y xs ys same) ∙ e) in
      subst (λ z. PathMatch (x ∷ xs) (z ∷ ys)) ((==_iff x y).0 same) (PathMatch-cons x xs ys rest)
  | inr other ↦
      let star : x ≡ b'*' = (==_iff x b'*').0 (sym (is_path_match-other x y xs ys other) ∙ e) in
      inr ([], xs, ys, y, ap (λ z. z ∷ xs) star, refl, λ z. ground (arith, other, star, z))
]

is_path_match_self : (path : List ℕ) → is_path_match path path ≡ true
unfolding is_path_match mismatch
is_path_match_self [] = refl
is_path_match_self (x ∷ xs) =
    is_path_match-same x x xs xs ((==_iff x x).1 refl) ∙ is_path_match_self xs

is_path_match_star :
    (pre after rest : List ℕ) (c : ℕ)
    → c ≢ b'*'
    → is_path_match (pre ++ (b'*' ∷ after)) (pre ++ (c ∷ rest)) ≡ true
is_path_match_star [] after rest c h =
    is_path_match-other b'*' c after rest (ground (arith, h)) ∙ (==_iff b'*' b'*').1 refl
is_path_match_star (x ∷ pre) after rest c h =
    is_path_match-same x x (pre ++ (b'*' ∷ after)) (pre ++ (c ∷ rest)) ((==_iff x x).1 refl)
    ∙ is_path_match_star pre after rest c h

PathMatch-is_path_match :
    (pattern path : List ℕ) → PathMatch pattern path → is_path_match pattern path ≡ true
PathMatch-is_path_match pattern path (inl e) =
    ap (λ p. is_path_match p path) e ∙ is_path_match_self path
PathMatch-is_path_match pattern path (inr (pre, after, rest, c, e, f, h)) =
    ap₂ is_path_match e f ∙ is_path_match_star pre after rest c h

module _ (mp : MethodPath) (method : ℕ) (path : List ℕ) (is_tls : Bool) where
  is_route_match-Serves :
      NoZero path → is_route_match mp method path is_tls ≡ true → Serves mp method path is_tls
  unfolding is_route_match
  is_route_match-Serves n e = record {
    same_method = ground (arith, e);
    without_tls = elim (Bool-cases is_tls) [
      | inl t ↦ inl (λ z. ground (arith, e, z, t))
      | inr t ↦ inr t
    ];
    with_tls = elim (Bool-cases is_tls) [
      | inl t ↦ inr t
      | inr t ↦ inl (λ z. ground (arith, e, z, t))
    ];
    no_longer = ground (arith, e);
    path_match = is_path_match_lem mp.path path n (ground (arith, e)) (ground (arith, e));
  }

  Serves-is_route_match : Serves mp method path is_tls → is_route_match mp method path is_tls ≡ true
  unfolding is_route_match
  Serves-is_route_match s =
      let m = PathMatch-is_path_match mp.path path s.path_match in
      ground (arith, m, s.same_method, s.no_longer, s.without_tls, s.with_tls)

-- Routes that do not take a request.
pub data NoneServes {H : Type 0} (method : ℕ) (path : List ℕ) (is_tls : Bool)
    : List (MethodPath × H) → Type 0 where
  empty : NoneServes method path is_tls []
  more :
      (mp : MethodPath) (handler : H) (routes : List (MethodPath × H))
      → ¬ Serves mp method path is_tls
      → NoneServes method path is_tls routes
      → NoneServes method path is_tls ((mp, handler) ∷ routes)

-- What the search says of a list of routes.
abbrev pub Finds : {H : Type 0} → List (MethodPath × H) → ℕ → List ℕ → Bool → Option H → Type 0
Finds {H} routes method path is_tls none = NoneServes method path is_tls routes
Finds {H} routes method path is_tls (some handler) =
    (before after : List (MethodPath × H)) × (mp : MethodPath) × (routes
      ≡ before ++ ((mp, handler) ∷ after))
    × NoneServes method path is_tls before
    × Serves mp method path is_tls

Finds-cons :
    {H : Type 0} (mp : MethodPath) (handler : H) (routes : List (MethodPath × H)) (method : ℕ)
    (path : List ℕ) (is_tls : Bool) (found : Option H)
    → ¬ Serves mp method path is_tls
    → Finds routes method path is_tls found
    → Finds ((mp, handler) ∷ routes) method path is_tls found
Finds-cons mp handler routes method path is_tls none h f = NoneServes.more mp handler routes h f
Finds-cons mp handler routes method path is_tls (some g) h (before, after, mq, e, none_before, s) =
    (
      (mp, handler) ∷ before,
      after,
      mq,
      ap (λ rs. (mp, handler) ∷ rs) e,
      NoneServes.more mp handler before h none_before,
      s,
    )

-- For a path without the byte 0, the handler found is that of the first route that takes the request:
-- one with its method, open to its use of TLS, whose path is the request's or has, within the length
-- of the request's, a `*` where the two first differ. Without such a route there is none.
pub find_http_handler_lem :
    {H : Type 0} (routes : List (MethodPath × H)) (method : ℕ) (path : List ℕ) (is_tls : Bool)
    → NoZero path
    → Finds routes method path is_tls (find_http_handler routes method path is_tls)
unfolding find_http_handler
find_http_handler_lem [] method path is_tls n = NoneServes.empty
find_http_handler_lem ((mp, handler) ∷ routes) method path is_tls n =
    elim (Bool-cases (is_route_match mp method path is_tls)) [
      | inl e ↦
          rw (find_http_handler, e)
            (
              [],
              routes,
              mp,
              refl,
              NoneServes.empty,
              is_route_match-Serves mp method path is_tls n e,
            )
      | inr e ↦
          let refused : ¬ Serves mp method path is_tls =
            λ s. true_is_false (sym (Serves-is_route_match mp method path is_tls s) ∙ e) in
          rw (find_http_handler, e)
            (Finds-cons mp handler routes method path is_tls
              (find_http_handler routes method path is_tls) refused
              (find_http_handler_lem routes method path is_tls n))
    ]
