-- ===== src/Rpc/Session/Invariant.antt =====
-- The invariant of src/session.cpp, and what each operation keeps of it.
use cocaine_core.Hpack.Header.{Bytes}
use cocaine_core.Base.{
  leb, Bool, ◌++◌, subst, [], false, ℕ, ◌+◌, ◌%◌, ◌^◌, ◌≤◌, ◌<◌, ◌≡◌, refl, inl, inr, Option, none,
  some, arith, Bool-cases, Option-cases, nat_key, string_key, list_key,
}
use cocaine_core.Base.Map.{
  lookup-modify, contains, modify-Ascending, lookup, emplace, Ascending, lookup-emplace,
  lookup-erase, emplace-Ascending, erase-Ascending, lookup-nil,
}
use cocaine_core.Errors.Codes.{no_error, Code}
use cocaine_core.Trace.{Trace}
use cocaine_core.Rpc.Session.{
  Completion-cases, channel_of, Invocation, discards, Session, Channel, Dispatches, revoke, fork,
  detach,
}
use cocaine_core.Rpc.Session.Handle.{
  extract_trace, select_dispatch, find_channel, to_int, insert_channel, advance, assign_dispatch,
}

-- The channels are in order of their numbers, which are at most the largest number so far, and each
-- answers to its own number.
pub record Inv {D : Type 0} (s : Session D) : Type 0 where
  pub ascending : Ascending s.channels
  pub bounded :
      (id : ℕ) (c : Channel D)
      → lookup id s.channels ≡ some c
      → (id ≤ s.max_channel_id) × (c.upstream ≡ id)
  pub word : s.max_channel_id < 2 ^ 64

-- What every operation leads to: the invariant, larger numbers, and no channel back.
pub record Keeps {D : Type 0} (s t : Session D) : Type 0 where
  pub inv : Inv t
  pub later : s.max_channel_id ≤ t.max_channel_id
  pub gone :
      (id : ℕ) → id ≤ s.max_channel_id → lookup id s.channels ≡ none → lookup id t.channels ≡ none

pub Keeps-refl : {D : Type 0} (s : Session D) → Inv s → Keeps s s
Keeps-refl s v = record { inv = v; later = omega arith; gone = λ id le e. e }

pub Keeps-trans : {D : Type 0} {s t u : Session D} → Keeps s t → Keeps t u → Keeps s u
Keeps-trans a b = record {
  inv = b.inv;
  later = omega (arith, a.later, b.later);
  gone = λ id le e. b.gone id (omega (arith, a.later)) (a.gone id le e);
}

pub revoke-Keeps :
    {D : Type 0} (id : ℕ) (ec : Code) (s : Session D) → Inv s → Keeps s (revoke id ec s)
unfolding revoke
revoke-Keeps id ec s v = elim (Option-cases (lookup id s.channels)) [
  | inl e ↦ rw (e, revoke) (Keeps-refl s v)
  | inr (c, e) ↦
      rw (e, revoke)
        (record {
          inv = record {
            ascending = erase-Ascending id s.channels v.ascending;
            bounded = λ j d h. ground (arith, lookup-erase id j s.channels, v.bounded j d);
            word = v.word;
          };
          later = omega arith;
          gone = λ j le h. ground (arith, lookup-erase id j s.channels);
        })
]

-- The session of an effective `detach`.
cleared : {D : Type 0} → Code → Session D → Session D
cleared ec s = record s {
  attached = false;
  channels = [];
  discarded = s.discarded ++ discards ec s.channels;
}

cleared-Keeps : {D : Type 0} (ec : Code) (s : Session D) → Inv s → Keeps s (cleared ec s)
unfolding cleared
cleared-Keeps {D = D} ec s v = record {
  inv = record {
    ascending = tt;
    bounded = λ j d h.
        let empty_ : lookup {V = Channel D} j [] ≡ none = lookup-nil j in absurd (ground arith);
    word = v.word;
  };
  later = omega arith;
  gone = λ j le h. lookup-nil j;
}

pub detach-Keeps : {D : Type 0} (ec : Code) (s : Session D) → Inv s → Keeps s (detach ec s)
unfolding detach
detach-Keeps {D = D} ec s v = elim (Bool-cases s.attached) [
  | inr off ↦ let same : s ≡ detach ec s = ground arith in subst (Keeps s) same (Keeps-refl s v)
  | inl on ↦
      let same : cleared ec s ≡ detach ec s = unfold cleared in ground arith in
      subst (Keeps s) same (cleared-Keeps ec s v)
]

-- A new channel with the largest number.
emplace-Keeps :
    {D : Type 0} (s t : Session D) (id : ℕ) (c : Channel D)
    → Inv s
    → s.max_channel_id < id
    → id < 2 ^ 64
    → c.upstream ≡ id
    → t.channels ≡ emplace id c s.channels
    → t.max_channel_id ≡ id
    → Keeps s t
emplace-Keeps s t id c v lt word own channels last = record {
  inv = record {
    ascending = rw channels (emplace-Ascending id c s.channels v.ascending);
    bounded = λ j d h. ground (arith, lookup-emplace id j c s.channels v.ascending, v.bounded j d);
    word = omega arith;
  };
  later = omega arith;
  gone = λ j le h. ground (arith, lookup-emplace id j c s.channels v.ascending);
}

pub fork-Keeps :
    {D : Type 0} (ops : Dispatches D) (current : Trace) (id : ℕ) (d : Option D) (s : Session D)
    → Inv s
    → s.max_channel_id + 1 < 2 ^ 64
    → Keeps s (fork ops current id d s).0
unfolding fork
fork-Keeps ops current id none s v room = record {
  inv = record {
    ascending = v.ascending;
    bounded = λ j c h. ground (arith, v.bounded j c);
    word = omega arith;
  };
  later = omega arith;
  gone = λ j le h. h;
}
fork-Keeps ops current id (some d) s v room =
    emplace-Keeps s _ ((s.max_channel_id + 1) % 2 ^ 64) _ v (omega arith) (omega arith) refl refl
      refl

assign_dispatch-Keeps :
    {D : Type 0} (id : ℕ) (next : Option D) (s : Session D)
    → Inv s
    → Keeps s (assign_dispatch id next s)
unfolding assign_dispatch
assign_dispatch-Keeps id next s v = record {
  inv = record {
    ascending = modify-Ascending id _ s.channels v.ascending;
    bounded = λ j d h. elim (Option-cases (lookup j s.channels)) [
      | inl e ↦
          absurd (ground (arith, lookup-modify id j (λ c. record c { dispatch = next }) s.channels))
      | inr (c, e) ↦
          ground (
            arith,
            lookup-modify id j (λ c. record c { dispatch = next }) s.channels,
            v.bounded j c,
          )
    ];
    word = v.word;
  };
  later = omega arith;
  gone =
      λ j le h. ground (arith, lookup-modify id j (λ c. record c { dispatch = next }) s.channels);
}

pub advance-Keeps :
    {D : Type 0} (id : ℕ) (d : D) (next : Option (Option D)) (s : Session D)
    → Inv s
    → Keeps s (advance id d next s)
unfolding advance
advance-Keeps id d none s v = assign_dispatch-Keeps id (some d) s v
advance-Keeps id d (some (some next)) s v = assign_dispatch-Keeps id (some next) s v
advance-Keeps id d (some none) s v = elim (Bool-cases (contains id s.channels)) [
  | inr lost ↦
      let same : s ≡ advance id d (some none) s = ground arith in
      subst (Keeps s) same (Keeps-refl s v)
  | inl there ↦
      let same : revoke id no_error (assign_dispatch id none s) ≡ advance id d (some none) s =
        ground arith in
      let first = assign_dispatch-Keeps id none s v in
      subst (Keeps s) same (Keeps-trans first (revoke-Keeps id no_error _ first.inv))
]

insert_channel-Keeps :
    {D : Type 0} (ops : Dispatches D) (m : Invocation) (trace : Option Trace) (s : Session D)
    → Inv s
    → s.max_channel_id < m.span
    → m.span < 2 ^ 64
    → Keeps s (insert_channel ops m trace s).0
unfolding insert_channel
insert_channel-Keeps {D = D} ops m trace s v lt word = elim (Option-cases s.prototype) [
  | inl e ↦
      let same : s ≡ (insert_channel ops m trace s).0 = ground arith in
      subst (Keeps s) same (Keeps-refl s v)
  | inr (p, e) ↦ elim (Bool-cases (contains (to_int m.type) (ops.root p))) [
    | inr absent ↦
        let same : s ≡ (insert_channel ops m trace s).0 = ground arith in
        subst (Keeps s) same (Keeps-refl s v)
    | inl there ↦
        let channel : Channel D =
          channel_of (some (select_dispatch ops p s.service_dispatch m.type)) m.span trace in
        let same : record s {
          channels = emplace m.span channel s.channels;
          max_channel_id = m.span;
        }
            ≡ (insert_channel ops m trace s).0 =
          ground arith in
        subst (Keeps s) same (emplace-Keeps s _ m.span channel v lt word refl refl refl)
  ]
]

pub find_channel-Keeps :
    {D : Type 0} (ops : Dispatches D) (lexical_cast : Bytes → Option Bool) (m : Invocation)
    (s : Session D)
    → Inv s
    → m.span < 2 ^ 64
    → Keeps s (find_channel ops lexical_cast m s).0
unfolding find_channel
find_channel-Keeps ops lexical_cast m s v word = elim (Option-cases (lookup m.span s.channels)) [
  | inr (c, e) ↦
      let same : s ≡ (find_channel ops lexical_cast m s).0 = ground arith in
      subst (Keeps s) same (Keeps-refl s v)
  | inl e ↦ elim (Bool-cases (leb m.span s.max_channel_id)) [
    | inl old ↦
        let same : s ≡ (find_channel ops lexical_cast m s).0 = ground arith in
        subst (Keeps s) same (Keeps-refl s v)
    | inr new ↦ elim (Completion-cases (extract_trace ops lexical_cast s.prototype m)) [
      | inl (trace, made) ↦
          let same : (insert_channel ops m trace s).0 ≡ (find_channel ops lexical_cast m s).0 =
            ground arith in
          subst (Keeps s) same (insert_channel-Keeps ops m trace s v (ground arith) word)
      | inr failed ↦
          let same : s ≡ (find_channel ops lexical_cast m s).0 = ground arith in
          subst (Keeps s) same (Keeps-refl s v)
    ]
  ]
]

-- After `revoke` the channel is not in the map.
pub lookup-revoke :
    {D : Type 0} (id : ℕ) (ec : Code) (s : Session D) → lookup id (revoke id ec s).channels ≡ none
unfolding revoke
lookup-revoke id ec s = ground (arith, lookup-erase id id s.channels)

pub max_channel_id-revoke :
    {D : Type 0} (id : ℕ) (ec : Code) (s : Session D)
    → (revoke id ec s).max_channel_id ≡ s.max_channel_id
unfolding revoke
max_channel_id-revoke id ec s = ground arith
