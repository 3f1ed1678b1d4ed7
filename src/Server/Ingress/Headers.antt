-- ===== src/Server/Ingress/Headers.antt =====
-- Which headers a forwarded request and its answer lose.
use ongrok_relay.Prelude.{
  ◌≡◌, refl, sym, ◌∙◌, ◌⊎◌, inl, inr, true, ◌||◌, List, [], ◌∷◌, ◌++◌, Option, none, some, Text,
  text, text_eq, text_eq→eq, text_eq_self, any, map, if◌then◌else◌, arith, ap, subst, Bool-cases,
}
use ongrok_relay.Server.Ingress.{
  HeaderMaps, hop_by_hop, connection_names, remove_names, strip_hop_by_hop_headers, split_commas,
  trim, somes, flatten,
}

-- Being in a list.
abbrev pub Among : {A : Type 0} → A → List A → Type 0
Among x [] = ⊥
Among x (y ∷ ys) = (x ≡ y) ⊎ Among x ys

-- The names that HTTP reserves for one connection.
abbrev pub reserved : List Text
reserved =
    text "connection"
    ∷ text "keep-alive"
    ∷ text "proxy-authenticate"
    ∷ text "proxy-authorization"
    ∷ text "te"
    ∷ text "trailer"
    ∷ text "transfer-encoding"
    ∷ text "upgrade"
    ∷ []

any-Among :
    (name : Text) (names : List Text) → any (λ n. text_eq n name) names ≡ true → Among name names
any-Among name [] h = absurd cc
any-Among name (n ∷ names) h = elim (Bool-cases (text_eq n name)) [
  | inl same ↦ inl (sym (text_eq→eq n name same))
  | inr other ↦ inr (any-Among name names (ground arith))
]

Among-any :
    (name : Text) (names : List Text) → Among name names → any (λ n. text_eq n name) names ≡ true
Among-any name [] h = elim h [ ]
Among-any name (n ∷ names) (inl same) =
    ground (arith, subst (λ m. text_eq m name ≡ true) same (text_eq_self name))
Among-any name (n ∷ names) (inr later) = ground (arith, Among-any name names later)

Among-append_left : {A : Type 0} (x : A) (xs ys : List A) → Among x xs → Among x (xs ++ ys)
Among-append_left x [] ys h = elim h [ ]
Among-append_left x (y ∷ xs) ys (inl e) = inl e
Among-append_left x (y ∷ xs) ys (inr h) = inr (Among-append_left x xs ys h)

Among-append_right : {A : Type 0} (x : A) (xs ys : List A) → Among x ys → Among x (xs ++ ys)
Among-append_right x [] ys h = h
Among-append_right x (y ∷ xs) ys h = inr (Among-append_right x xs ys h)

Among-append : {A : Type 0} (x : A) (xs ys : List A) → Among x (xs ++ ys) → Among x xs ⊎ Among x ys
Among-append x [] ys h = inr h
Among-append x (y ∷ xs) ys (inl e) = inl (inl e)
Among-append x (y ∷ xs) ys (inr h) = elim (Among-append x xs ys h) [
  | inl a ↦ inl (inr a)
  | inr b ↦ inr b
]

-- Where an image under a partial function comes from.
abbrev pub Source : {A B : Type 0} → (A → Option B) → B → List A → Type 0
Source {A} f y xs = (x : A) × Among x xs × (f x ≡ some y)

Among-kept :
    {B : Type 0} (o : Option B) (y : B) (ys : List B)
    → Among y (elim o [ some z ↦ z ∷ ys | none ↦ ys ])
    → (o ≡ some y) ⊎ Among y ys
Among-kept none y ys h = inr h
Among-kept (some z) y ys (inl same) = inl (ap (λ v. some v) (sym same))
Among-kept (some z) y ys (inr h) = inr h

kept-Among :
    {B : Type 0} (o : Option B) (y : B) (ys : List B)
    → (o ≡ some y) ⊎ Among y ys
    → Among y (elim o [ some z ↦ z ∷ ys | none ↦ ys ])
kept-Among none y ys (inl e) = absurd cc
kept-Among none y ys (inr h) = h
kept-Among (some z) y ys (inl e) = inl cc
kept-Among (some z) y ys (inr h) = inr h

Among-somes :
    {A B : Type 0} (f : A → Option B) (y : B) (xs : List A) → Among y (somes f xs) → Source f y xs
Among-somes f y [] h = elim h [ ]
Among-somes f y (x ∷ xs) h = elim (Among-kept (f x) y (somes f xs) h) [
  | inl e ↦ (x, inl refl, e)
  | inr later ↦ let (z, there, e) = Among-somes f y xs later in (z, inr there, e)
]

somes-Among :
    {A B : Type 0} (f : A → Option B) (y : B) (xs : List A) → Source f y xs → Among y (somes f xs)
somes-Among f y [] (x, there, e) = elim there [ ]
somes-Among f y (z ∷ xs) (x, inl same, e) =
    kept-Among (f z) y (somes f xs) (inl (ap f (sym same) ∙ e))
somes-Among f y (z ∷ xs) (x, inr there, e) =
    kept-Among (f z) y (somes f xs) (inr (somes-Among f y xs (x, there, e)))

Among-flatten :
    (f : Text → List Text) (y : Text) (xs : List Text)
    → Among y (flatten (map f xs))
    → (x : Text) × Among x xs × Among y (f x)
Among-flatten f y [] h = elim h [ ]
Among-flatten f y (x ∷ xs) h = elim (Among-append y (f x) (flatten (map f xs)) h) [
  | inl here ↦ (x, inl refl, here)
  | inr later ↦ let (z, there, e) = Among-flatten f y xs later in (z, inr there, e)
]

flatten-Among :
    (f : Text → List Text) (y x : Text) (xs : List Text)
    → Among x xs
    → Among y (f x)
    → Among y (flatten (map f xs))
flatten-Among f y x [] h e = elim h [ ]
flatten-Among f y x (z ∷ xs) (inl same) e =
    Among-append_left y (f z) (flatten (map f xs)) (subst (λ v. Among y (f v)) same e)
flatten-Among f y x (z ∷ xs) (inr later) e =
    Among-append_right y (f z) (flatten (map f xs)) (flatten-Among f y x xs later e)

module _ (H : HeaderMaps) where
  get_all-remove_names :
      (names : List Text) (name : Text) (headers : H.Map)
      → H.get_all name (remove_names H names headers)
        ≡ (if any (λ n. text_eq n name) names then [] else H.get_all name headers)
  unfolding remove_names
  get_all-remove_names [] name headers = refl
  get_all-remove_names (first ∷ rest) name headers = ground (
    arith,
    get_all-remove_names rest name (H.remove first headers),
    H.get_all-remove first name headers,
  )

  -- A value of `Connection` that is text has a piece between commas which, trimmed, is the name.
  pub record IsListed (name : Text) (headers : H.Map) : Type 0 where
    pub value : Text
    pub line : Text
    pub piece : Text
    pub present : Among value (H.get_all (text "connection") headers)
    pub readable : H.to_str value ≡ some line
    pub between : Among piece (split_commas line)
    pub named : H.header_name (trim piece) ≡ some name

  listed :
      (name : Text) (headers : H.Map)
      → Among name (connection_names H headers)
      → IsListed name headers
  unfolding connection_names
  listed name headers h =
      let lines = somes H.to_str (H.get_all (text "connection") headers) in
      let (piece, cut, named) =
        Among-somes (λ p. H.header_name (trim p)) name (flatten (map split_commas lines)) h in
      let (line, kept, between) = Among-flatten split_commas piece lines cut in
      let (value, present, readable) =
        Among-somes H.to_str line (H.get_all (text "connection") headers) kept in
      record {
        value = value;
        line = line;
        piece = piece;
        present = present;
        readable = readable;
        between = between;
        named = named;
      }

  IsListed-Among :
      (name : Text) (headers : H.Map)
      → IsListed name headers
      → Among name (connection_names H headers)
  unfolding connection_names
  IsListed-Among name headers l =
      let lines = somes H.to_str (H.get_all (text "connection") headers) in
      somes-Among (λ p. H.header_name (trim p)) name (flatten (map split_commas lines))
        (
          l.piece,
          flatten-Among split_commas l.piece l.line lines
              (somes-Among H.to_str l.line (H.get_all (text "connection") headers)
                (l.value, l.present, l.readable))
              l.between,
          l.named,
        )

  strip_hop_by_hop_headers-names :
      (name : Text) (headers : H.Map)
      → H.get_all name (strip_hop_by_hop_headers H headers) ≡ (
          if any (λ n. text_eq n name) reserved
            || any (λ n. text_eq n name) (connection_names H headers)
          then []
          else H.get_all name headers)
  unfolding strip_hop_by_hop_headers
  strip_hop_by_hop_headers-names name headers =
      let kept = remove_names H (connection_names H headers) headers in
      ground (
        arith,
        get_all-remove_names hop_by_hop name kept,
        get_all-remove_names (connection_names H headers) name headers,
      )

  -- A header is gone whose name is one of the eight that HTTP reserves for one connection, or which a
  -- readable value of `Connection` lists between its commas; any other has the values that it had.
  pub get_all-strip_hop_by_hop_headers :
      (name : Text) (headers : H.Map)
      → let left = H.get_all name (strip_hop_by_hop_headers H headers) in
        (Among name reserved ⊎ IsListed name headers) × (left ≡ [])
        ⊎ (¬ Among name reserved) × (¬ IsListed name headers) × (left ≡ H.get_all name headers)
  get_all-strip_hop_by_hop_headers name headers =
      let is = strip_hop_by_hop_headers-names name headers in
      elim (Bool-cases (any (λ n. text_eq n name) reserved)) [
        | inl first ↦ inl (inl (any-Among name reserved first), ground (arith, is))
        | inr other ↦ elim (Bool-cases (any (λ n. text_eq n name) (connection_names H headers))) [
          | inl second ↦ inl (
            inr (listed name headers (any-Among name (connection_names H headers) second)),
            ground (arith, is),
          )
          | inr neither ↦ inr (
            λ a. ground (arith, Among-any name reserved a),
            λ l. ground (
              arith,
              Among-any name (connection_names H headers) (IsListed-Among name headers l),
            ),
            ground (arith, is),
          )
        ]
      ]
