-- ===== src/Namespaces/Channels.antt =====
-- Which namespace a channel belongs to, and the names of channels inside it.
use stream_relay.Prelude.{
  ◌<◌, ◌≤◌, ◌≡◌, ◌≢◌, ◌↔◌, ◌⊎◌, inl, inr, refl, true, false, [], ◌∷◌, ◌++◌, Bytes, Map, arith, ltb,
  length, take, drop, ap, subst, sym, ◌∙◌, ◌&&◌, ◌==◌, append-nil, length-append, length-drop,
  take-append-drop, length_pos, take-length-append, drop-length-append, Bool-cases,
}
use stream_relay.Protocol.{ok, err, bad_request}
use stream_relay.Namespaces.{
  Namespace, NamespaceManager, catches, get_by_channel_from, get_by_channel, channel_name,
  strip_prefix, validate_channel,
}

-- The namespace stands among the values of the map.
abbrev pub Registered : Namespace → Map Namespace → Type 0
Registered ns [] = ⊥
Registered ns ((_, other) ∷ m) = (ns ≡ other) ⊎ Registered ns m

-- No namespace of the map but this one catches the channel.
abbrev pub OnlyCaught : Namespace → Bytes → Map Namespace → Type 0
OnlyCaught ns channel [] = Unit
OnlyCaught ns channel ((_, other) ∷ m) =
    (catches other channel ≡ true → other ≡ ns) × OnlyCaught ns channel m

abbrev pub NoneCatches : Bytes → Map Namespace → Type 0
NoneCatches channel [] = Unit
NoneCatches channel ((_, other) ∷ m) = (catches other channel ≡ false) × NoneCatches channel m

-- A prefix is caught with something behind it.
pub catches_iff :
    (ns : Namespace) (channel : Bytes)
    → (catches ns channel ≡ true) ↔ (
        (ns.channel_prefix ≢ [])
        × ((rest : Bytes) × (rest ≢ []) × (channel ≡ ns.channel_prefix ++ rest)))
unfolding catches
catches_iff ns channel = (
  λ h.
      let n = length ns.channel_prefix in
      let longer : n < length channel = ground arith in
      let front : take n channel ≡ ns.channel_prefix = ground arith in
      (
        ground arith,
        (
          drop n channel,
          λ z. omega (arith, longer, ap length z, length-drop n channel),
          cc (take-append-drop n channel, front),
        ),
      ),
  λ h.
      let rest = h.1.0 in
      ground (
        arith,
        take-length-append ns.channel_prefix rest,
        length-append ns.channel_prefix rest,
        length_pos rest h.1.1,
      ),
)

channel_name-append :
    (ns : Namespace) (channel : Bytes) → channel_name ns channel ≡ ns.channel_prefix ++ channel
unfolding channel_name
channel_name-append ns channel = ground arith

get_by_channel_from_cases :
    (m : Map Namespace) (fallback : Namespace) (channel : Bytes)
    → (Registered (get_by_channel_from m fallback channel) m
        × (catches (get_by_channel_from m fallback channel) channel ≡ true))
      ⊎ (NoneCatches channel m × (get_by_channel_from m fallback channel ≡ fallback))
unfolding get_by_channel_from
get_by_channel_from_cases [] fallback channel = inr (tt, refl)
get_by_channel_from_cases ((name, ns) ∷ m) fallback channel =
    let got = get_by_channel_from ((name, ns) ∷ m) fallback channel in
    let Caught = λ (r : Namespace). Registered r ((name, ns) ∷ m) × (catches r channel ≡ true) in
    elim (Bool-cases (catches ns channel)) [
      | inl here ↦ let e : ns ≡ got = ground arith in inl (subst Caught e (inl refl, here))
      | inr not_here ↦
          let e : get_by_channel_from m fallback channel ≡ got = ground arith in
          elim (get_by_channel_from_cases m fallback channel) [
            | inl (reg, c) ↦ inl (subst Caught e (inr reg, c))
            | inr (none_, d) ↦ inr ((not_here, none_), sym e ∙ d)
          ]
    ]

-- The namespace of a channel is a registered one whose prefix the channel has, or the default,
-- and the default only if no registered namespace has a prefix of the channel.
pub get_by_channel_cases :
    (m : NamespaceManager) (channel : Bytes)
    → (Registered (get_by_channel m channel) m.namespaces
        × (catches (get_by_channel m channel) channel ≡ true))
      ⊎ (NoneCatches channel m.namespaces × (get_by_channel m channel ≡ m.default_ns))
unfolding get_by_channel
get_by_channel_cases m channel = get_by_channel_from_cases m.namespaces m.default_ns channel

get_by_channel_from_unique :
    (ns : Namespace) (m : Map Namespace) (fallback : Namespace) (channel : Bytes)
    → Registered ns m
    → OnlyCaught ns channel m
    → catches ns channel ≡ true
    → get_by_channel_from m fallback channel ≡ ns
unfolding get_by_channel_from
get_by_channel_from_unique ns [] fallback channel r o c = absurd r
get_by_channel_from_unique ns ((name, other) ∷ m) fallback channel r o c =
    elim (Bool-cases (catches other channel)) [
      | inl here ↦ rw here (o.0 here)
      | inr not_here ↦ elim r [
        | inl e ↦ absurd (cc)
        | inr later ↦ rw not_here (get_by_channel_from_unique ns m fallback channel later o.1 c)
      ]
    ]

-- Whatever order the map is ranged over in, the namespace of a channel that a registered namespace
-- names is that namespace, if no other registered one has a prefix of the channel.
pub get_by_channel-channel_name :
    (m : NamespaceManager) (ns : Namespace) (channel : Bytes)
    → ns.channel_prefix ≢ []
    → channel ≢ []
    → Registered ns m.namespaces
    → OnlyCaught ns (channel_name ns channel) m.namespaces
    → get_by_channel m (channel_name ns channel) ≡ ns
unfolding get_by_channel
get_by_channel-channel_name m ns channel p c r o =
    get_by_channel_from_unique ns m.namespaces m.default_ns (channel_name ns channel) r o
      ((catches_iff ns _).1 (p, (channel, c, channel_name-append ns channel)))

-- Where two registered namespaces both have a prefix of a channel, the order of the map decides:
-- each is the answer in one of the two orders, and the longer prefix has no precedence.
pub get_by_channel_order :
    (a b fallback : Namespace) (channel : Bytes)
    → catches a channel ≡ true
    → catches b channel ≡ true
    → (get_by_channel
          (record { namespaces = (a.name, a) ∷ (b.name, b) ∷ []; default_ns = fallback })
          channel
        ≡ a)
      × (get_by_channel
            (record { namespaces = (b.name, b) ∷ (a.name, a) ∷ []; default_ns = fallback })
            channel
          ≡ b)
unfolding get_by_channel get_by_channel_from
get_by_channel_order a b fallback channel ha hb = ground arith

-- `StripPrefix` undoes `ChannelName` for every channel but the empty one, which comes back as the
-- prefix.
pub strip_prefix-channel_name :
    (ns : Namespace) (channel : Bytes)
    → (channel ≢ [] → strip_prefix ns (channel_name ns channel) ≡ channel)
      × (strip_prefix ns (channel_name ns []) ≡ ns.channel_prefix)
unfolding strip_prefix channel_name
strip_prefix-channel_name ns channel = (
  λ h. ground (
    arith,
    take-length-append ns.channel_prefix channel,
    drop-length-append ns.channel_prefix channel,
    length-append ns.channel_prefix channel,
    length_pos channel h,
  ),
  ground (arith, append-nil ns.channel_prefix),
)

validate_channel_total :
    (ns : Namespace) (channel : Bytes)
    → (validate_channel ns channel ≡ ok tt) ⊎ (validate_channel ns channel ≡ err bad_request)
unfolding validate_channel
validate_channel_total ns channel = elim (Bool-cases (length channel == 0)) [
  | inl empty ↦ inr (ground arith)
  | inr some_ ↦
      elim (Bool-cases (
        ltb 0 ns.options.max_channel_length
        && ltb ns.options.max_channel_length (length channel))) [
          | inl long ↦ inr (ground arith)
          | inr fits ↦ inl (ground arith)
        ]
]

-- A channel name is valid exactly when it is not empty and no longer than the limit, if there is
-- one; every other name is a bad request.
pub validate_channel_iff :
    (ns : Namespace) (channel : Bytes)
    → ((validate_channel ns channel ≡ ok tt) ↔ (
        (0 < length channel)
        × ((ns.options.max_channel_length ≡ 0) ⊎ (length channel ≤ ns.options.max_channel_length))))
      × ((validate_channel ns channel ≡ ok tt) ⊎ (validate_channel ns channel ≡ err bad_request))
unfolding validate_channel
validate_channel_iff ns channel = (
  (
    λ h. (
      ground arith,
      elim (Bool-cases (ltb 0 ns.options.max_channel_length)) [
        | inl limited ↦ inr (ground arith)
        | inr unlimited ↦ inl (ground arith)
      ],
    ),
    λ h. ground arith,
  ),
  validate_channel_total ns channel,
)
