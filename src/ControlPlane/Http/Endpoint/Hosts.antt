-- ===== src/ControlPlane/Http/Endpoint/Hosts.antt =====
-- internal/controlplane/http_resolver.go: the host of an endpoint, and the hosts that are loopback or on
-- the private network, without the code that tests them.
use anaysitics_service.Base.{
  ℕ, Bool, true, false, ◌&&◌, not, ◌≡◌, ◌≢◌, refl, sym, ap, ◌∙◌, ◌↔◌, ◌⊎◌, inl, inr, [], ◌∷◌, ◌++◌,
  none, some, All, arith, Bool-cases, Option-cases, if◌then◌else◌, subst, append-nil,
}
use anaysitics_service.Base.Text.{Text, text, is_empty, CaseTable, equal_fold}
use anaysitics_service.ControlPlane.Http.Endpoint.{
  Address, Addressing, is_bracket, without_first_brackets, without_last_brackets, trim_brackets,
  has_dot, bare_host, is_loopback_host, is_private_network_host,
}

-- One of the characters `[` and `]`.
abbrev pub IsBracket : ℕ → Type 0
IsBracket c = (c ≡ b'[') ⊎ (c ≡ b']')

abbrev pub Starts : Text → Type 0
Starts [] = Unit {0}
Starts (c ∷ s) = (c ≢ b'[') × (c ≢ b']')

abbrev pub Stops : Text → Type 0
Stops [] = Unit {0}
Stops (c ∷ []) = (c ≢ b'[') × (c ≢ b']')
Stops (c ∷ d ∷ s) = Stops (d ∷ s)

-- A text is another one between brackets, which does not begin or end with one.
abbrev pub IsBare : Text → Text → Type 0
IsBare h b =
    (l r : Text) × All IsBracket l × All IsBracket r × (h ≡ l ++ (b ++ r)) × Starts b × Stops b

-- The host of `host:port`, or all of it if there is no port, between its brackets.
abbrev pub IsHostOf : Addressing → Text → Text → Type 0
IsHostOf net host_port host =
    (h : Text) × ((net.split_host_port host_port ≡ some h)
      ⊎ ((net.split_host_port host_port ≡ none) × (h ≡ host_port)))
    × IsBare h host

-- The name localhost in any case, or a loopback address.
abbrev pub IsLoopback : ⦃cases : CaseTable⦄ → Addressing → Text → Type 0
IsLoopback net host =
    (equal_fold host (text "localhost") ≡ true)
    ⊎ ((a : Address) × (net.parse_addr host ≡ some a) × (a.is_loopback ≡ true))

-- A private address, or a name without a dot.
abbrev pub IsPrivate : Addressing → Text → Type 0
IsPrivate net host =
    (host ≢ [])
    × (((a : Address) × (net.parse_addr host ≡ some a) × (a.is_private ≡ true))
        ⊎ ((net.parse_addr host ≡ none) × All (λ c. c ≢ b'.') host))

-- The brackets in front are dropped, whatever follows them.
first-skips :
    (l t : Text) → All IsBracket l → without_first_brackets (l ++ t) ≡ without_first_brackets t
first-skips [] t h = refl
first-skips (c ∷ l) t (b, h) = ground (arith, first-skips l t h)

first-keeps : (t : Text) → Starts t → without_first_brackets t ≡ t
first-keeps [] h = refl
first-keeps (c ∷ t) h = ground arith

first-splits :
    (t : Text)
    → (l : Text) × All IsBracket l
      × (t ≡ l ++ without_first_brackets t)
      × Starts (without_first_brackets t)
first-splits [] = ([], tt, refl, tt)
first-splits (c ∷ t) = elim (Bool-cases (is_bracket c)) [
  | inl b ↦
      let (l, brackets, same, starts) = first-splits t in
      rw b (c ∷ l, (ground arith, brackets), ap (◌∷◌ c) same, starts)
  | inr b ↦ rw b ([], tt, refl, ground arith)
]

last-drops : (b r : Text) → Stops b → All IsBracket r → without_last_brackets (b ++ r) ≡ b
last-drops [] [] s h = refl
last-drops [] (c ∷ r) s (b, h) = ground (arith, last-drops [] r tt h)
last-drops (c ∷ []) r s h = ground (arith, last-drops [] r tt h)
last-drops (c ∷ d ∷ b) r s h = ground (arith, last-drops (d ∷ b) r s h)

-- One more character in front of a text that is split.
abbrev Splits : Text → Text → Type 0
Splits t u = (r : Text) × All IsBracket r × (t ≡ u ++ r) × Stops u × (Starts t → Starts u)

last-step :
    (c : ℕ) (t u r : Text)
    → All IsBracket r
    → t ≡ u ++ r
    → Stops u
    → Splits (c ∷ t) (if is_bracket c && is_empty u then [] else c ∷ u)
last-step c t [] r brackets same stops = elim (Bool-cases (is_bracket c)) [
  | inl b ↦ rw b (c ∷ r, (ground arith, brackets), ap (◌∷◌ c) same, tt, λ s. tt)
  | inr b ↦ rw b (r, brackets, ap (◌∷◌ c) same, ground arith, λ s. s)
]
last-step c t (d ∷ u) r brackets same stops = elim (Bool-cases (is_bracket c)) [
  | inl b ↦ rw b (r, brackets, ap (◌∷◌ c) same, stops, λ s. s)
  | inr b ↦ rw b (r, brackets, ap (◌∷◌ c) same, stops, λ s. s)
]

last-Splits : (t : Text) → Splits t (without_last_brackets t)
last-Splits [] = ([], tt, refl, tt, λ s. tt)
last-Splits (c ∷ t) =
    let (r, brackets, same, stops, starts) = last-Splits t in
    last-step c t (without_last_brackets t) r brackets same stops

trims :
    (b r : Text)
    → Starts b
    → Stops b
    → All IsBracket r
    → without_last_brackets (without_first_brackets (b ++ r)) ≡ b
trims [] r starts stops h =
    ap without_last_brackets (ap without_first_brackets (sym (append-nil r)) ∙ first-skips r [] h)
trims (c ∷ b) r starts stops h =
    ap without_last_brackets (first-keeps (c ∷ (b ++ r)) starts) ∙ last-drops (c ∷ b) r stops h

IsBare-iff : (h b : Text) → (trim_brackets h ≡ b) ↔ IsBare h b
unfolding trim_brackets
IsBare-iff h b = (
  λ e.
      let (l, in_front, first, starts) = first-splits h in
      let (r, behind, last, stops, still) = last-Splits (without_first_brackets h) in
      subst (IsBare h) e
        (l, r, in_front, behind, first ∙ ap (λ t. l ++ t) last, still starts, stops),
  λ (l, r, in_front, behind, same, starts, stops).
      ap (λ h. without_last_brackets (without_first_brackets h)) same
      ∙ ap without_last_brackets (first-skips l (b ++ r) in_front)
      ∙ trims b r starts stops behind,
)

has_dot_iff : (s : Text) → (has_dot s ≡ false) ↔ All (λ c. c ≢ b'.') s
unfolding has_dot
has_dot_iff [] = ground arith
has_dot_iff (c ∷ s) = ground (arith, has_dot_iff s)

module _ (net : Addressing) (s : Text) where
  bare-none : net.split_host_port s ≡ none → bare_host net s ≡ trim_brackets s
  unfolding bare_host
  bare-none h = rw h refl

  bare-some :
      (host : Text) → net.split_host_port s ≡ some host → bare_host net s ≡ trim_brackets host
  unfolding bare_host
  bare-some host h = rw h refl

  pub IsHostOf-iff : (b : Text) → (bare_host net s ≡ b) ↔ IsHostOf net s b
  IsHostOf-iff b = (
    λ e. elim (Option-cases (net.split_host_port s)) [
      | inl h ↦ (s, inr (h, refl), (IsBare-iff s b).0 (sym (bare-none h) ∙ e))
      | inr (host, h) ↦ (host, inl h, (IsBare-iff host b).0 (sym (bare-some host h) ∙ e))
    ],
    λ (t, from, bare). elim from [
      | inl h ↦ bare-some t h ∙ (IsBare-iff t b).1 bare
      | inr (h, same) ↦ bare-none h ∙ (IsBare-iff s b).1 (subst (λ t. IsBare t b) same bare)
    ],
  )

  module _ ⦃cases : CaseTable⦄ where
    loopback-name :
        equal_fold (bare_host net s) (text "localhost") ≡ true → is_loopback_host net s ≡ true
    unfolding is_loopback_host
    loopback-name f = rw f refl

    loopback-none :
        equal_fold (bare_host net s) (text "localhost") ≡ false
        → net.parse_addr (bare_host net s) ≡ none
        → is_loopback_host net s ≡ false
    unfolding is_loopback_host
    loopback-none f n = rw (f, n) refl

    loopback-some :
        (a : Address)
        → equal_fold (bare_host net s) (text "localhost") ≡ false
        → net.parse_addr (bare_host net s) ≡ some a
        → is_loopback_host net s ≡ a.is_loopback
    unfolding is_loopback_host
    loopback-some a f n = rw (f, n) refl

    pub IsLoopback-iff : (is_loopback_host net s ≡ true) ↔ IsLoopback net (bare_host net s)
    IsLoopback-iff = elim (Bool-cases (equal_fold (bare_host net s) (text "localhost"))) [
      | inl f ↦ (λ h. inl f, λ h. loopback-name f)
      | inr f ↦ (
        λ h. elim (Option-cases (net.parse_addr (bare_host net s))) [
          | inl n ↦ absurd (cc (h, loopback-none f n))
          | inr (a, n) ↦ inr (a, n, sym (loopback-some a f n) ∙ h)
        ],
        λ h. elim h [ inl f' ↦ absurd (cc) | inr (a, n, on) ↦ loopback-some a f n ∙ on ],
      )
    ]

  private-blank : is_empty (bare_host net s) ≡ true → is_private_network_host net s ≡ false
  unfolding is_private_network_host
  private-blank e = rw e refl

  private-none :
      is_empty (bare_host net s) ≡ false
      → net.parse_addr (bare_host net s) ≡ none
      → is_private_network_host net s ≡ not (has_dot (bare_host net s))
  unfolding is_private_network_host
  private-none e n = rw (e, n) refl

  private-some :
      (a : Address)
      → is_empty (bare_host net s) ≡ false
      → net.parse_addr (bare_host net s) ≡ some a
      → is_private_network_host net s ≡ a.is_private
  unfolding is_private_network_host
  private-some a e n = rw (e, n) refl

  blank_iff : (t : Text) → (is_empty t ≡ true) ↔ (t ≡ [])
  blank_iff [] = ground arith
  blank_iff (c ∷ t) = ground arith

  pub IsPrivate-iff : (is_private_network_host net s ≡ true) ↔ IsPrivate net (bare_host net s)
  IsPrivate-iff = elim (Bool-cases (is_empty (bare_host net s))) [
    | inl e ↦ (
      λ h. absurd (cc (h, private-blank e)),
      λ (set, h). absurd (set ((blank_iff (bare_host net s)).0 e)),
    )
    | inr e ↦ (
      λ h. (
        λ blank. absurd (cc (e, (blank_iff (bare_host net s)).1 blank)),
        elim (Option-cases (net.parse_addr (bare_host net s))) [
          | inl n ↦ inr (n, (has_dot_iff (bare_host net s)).0 (no_dot (sym (private-none e n) ∙ h)))
          | inr (a, n) ↦ inl (a, n, sym (private-some a e n) ∙ h)
        ],
      ),
      λ (set, h). elim h [
        | inl (a, n, on) ↦ private-some a e n ∙ on
        | inr (n, plain) ↦ private-none e n ∙ ap not ((has_dot_iff (bare_host net s)).1 plain)
      ],
    )
  ]
    where
      no_dot : {b : Bool} → not b ≡ true → b ≡ false
      no_dot h = ground arith
