-- ===== src/Server/Hub/Steps.antt =====
-- Each call on the hub keeps the invariant, crates/boa-server/src/hub.rs.
use boa_voice.Prelude.{
  ◌≡◌, refl, ◌⊎◌, inl, inr, Bool, true, Option, none, some, ◌==◌, if◌then◌else◌, arith, sym, ◌∙◌,
  subst, Option-cases, Bool-cases, not, and_parts, or_parts,
}
use boa_voice.Prelude.Map.{
  Map, get, Distinct, modify, map_values, get-modify, get-map_values, modify-Distinct,
  map_values-Distinct,
}
use boa_voice.Prelude.Sets.{contains, contains-set_insert, contains-set_remove}
use boa_voice.Proto.Model.{Ident}
use boa_voice.Proto.Control.{ScreenRequest}
use boa_voice.Server.Hub.{
  State, Member, empty, with_member, with_flags, set_voice_flags, start_sharing, start_screen,
  stop_sharing, stop_watching, stop_screen, start_watching, watch, unwatch, with_addr,
  bind_media_address, SocketAddr, Instant,
}
use boa_voice.Server.Hub.Inv.{Inv, Pointwise, Pointwise-Inv, apply}

-- A write to one member that leaves the channel and the stream ids alone.
abbrev at_user : Ident → (Member → Member) → Ident → Member → Member
at_user user f j m = if user == j then f m else m

record Gentle (members : Map Member) (user : Ident) (f : Member → Member) : Type 0 where
  keeps :
      (m : Member)
      → ((f m).channel ≡ m.channel)
        × ((f m).voice_ssrc ≡ m.voice_ssrc)
        × ((f m).screen_ssrc ≡ m.screen_ssrc)
  watches :
      (m : Member) (t : Ident)
      → get user members ≡ some m
      → contains (f m).watching t ≡ true
      → (contains m.watching t ≡ true)
        ⊎ ((w : Member) × (get t members ≡ some w) × (w.channel ≡ m.channel))

modify-Pointwise :
    (user : Ident) (f : Member → Member) (members : Map Member)
    → Distinct members
    → Gentle members user f
    → Pointwise members (modify user f members) (at_user user f)
modify-Pointwise user f members d w = record {
  lookup = λ j. lookup j (get j members) refl;
  keeps_distinct = modify-Distinct user f members d;
  keeps = λ j m. ground (arith, w.keeps m);
  keeps_watched = λ j m t e c. elim (Bool-cases (user == j)) [
    | inl same ↦ w.watches m t (ground (arith, e)) (rw same at c)
    | inr other ↦ inl (rw other at c)
  ];
}
  where
    lookup :
        (j : Ident) (o : Option Member)
        → get j members ≡ o
        → get j (modify user f members) ≡ apply (at_user user f j) (get j members)
    lookup j none e = ground (arith, get-modify user j f members)
    lookup j (some m) e = ground (arith, get-modify user j f members)

modify-Inv :
    (s : State) (user : Ident) (f : Member → Member)
    → Inv s
    → Gentle s.members user f
    → Inv (record s { members = modify user f s.members })
modify-Inv s user f v w =
    Pointwise-Inv s (modify user f s.members) (at_user user f)
      (modify-Pointwise user f s.members v.distinct w) v

stop_watching-Pointwise :
    (user : Ident) (members : Map Member)
    → Distinct members
    → Pointwise members (map_values (stop_watching user) members) (λ j. stop_watching user)
stop_watching-Pointwise user members d = record {
  lookup = λ j. lookup j (get j members) refl;
  keeps_distinct = map_values-Distinct (stop_watching user) members d;
  keeps = λ j m. (refl, refl, refl);
  keeps_watched = λ j m t e c. inl (
      (and_parts (not (user == t)) (contains m.watching t)
        (sym (contains-set_remove user t m.watching) ∙ c)).1);
}
  where
    lookup :
        (j : Ident) (o : Option Member)
        → get j members ≡ o
        → get j (map_values (stop_watching user) members)
          ≡ apply (stop_watching user) (get j members)
    lookup j none e = ground (arith, get-map_values j (stop_watching user) members)
    lookup j (some m) e = ground (arith, get-map_values j (stop_watching user) members)

-- Where a write keeps what is watched too.
calm :
    (members : Map Member) (user : Ident) (f : Member → Member)
    → ((m : Member)
        → ((f m).channel ≡ m.channel)
          × ((f m).voice_ssrc ≡ m.voice_ssrc)
          × ((f m).screen_ssrc ≡ m.screen_ssrc)
          × ((f m).watching ≡ m.watching))
    → Gentle members user f
calm members user f k = record {
  keeps = λ m. ((k m).0, (k m).1, (k m).2);
  watches = λ m t e c. inl (subst (λ w. contains w t ≡ true) (k m).3 c);
}

with_member-Inv :
    (s : State) (user : Ident) (f : Member → Member)
    → Inv s
    → Gentle s.members user f
    → Inv (with_member s user f).1
unfolding with_member
with_member-Inv s user f v w = go (get user s.members)
  where
    go :
        (o : Option Member)
        → Inv (
            let r : Option Member × State = elim o [
              | none ↦ (none, s)
              | some m ↦ (some (f m), record s { members = modify user f s.members })
            ] in
            r.1)
    go none = v
    go (some m) = modify-Inv s user f v w

pub empty-Inv : Inv empty
unfolding get
empty-Inv = record {
  distinct = tt;
  voice_owned = λ u m e. cc;
  screen_owned = λ u m e. cc;
  apart = λ u m e. cc;
  owners = λ x u e. cc;
  nonzero = refl;
  keyed = λ u m e. cc;
  occupied = λ c key e. cc;
  watched = λ u m t e c. cc;
  next_small = omega arith;
}

pub set_voice_flags-Inv :
    (s : State) (user : Ident) (muted deafened : Bool)
    → Inv s
    → Inv (set_voice_flags s user muted deafened).1
unfolding set_voice_flags
set_voice_flags-Inv s user muted deafened v =
    with_member-Inv s user (with_flags muted deafened) v
      (calm s.members user (with_flags muted deafened) (λ m. (refl, refl, refl, refl)))

pub start_screen-Inv :
    (s : State) (user : Ident) (request : ScreenRequest)
    → Inv s
    → Inv (start_screen s user request).1
unfolding start_screen
start_screen-Inv s user request v =
    with_member-Inv s user (start_sharing request) v
      (calm s.members user (start_sharing request) (λ m. (refl, refl, refl, refl)))

pub bind_media_address-Inv :
    (s : State) (user : Ident) (addr : SocketAddr) (now : Instant)
    → Inv s
    → Inv (bind_media_address s user addr now).1
unfolding bind_media_address
bind_media_address-Inv s user addr now v =
    with_member-Inv s user (with_addr addr now) v
      (calm s.members user (with_addr addr now) (λ m. (refl, refl, refl, refl)))

pub stop_screen-Inv : (s : State) (user : Ident) → Inv s → Inv (stop_screen s user).1
unfolding stop_screen
stop_screen-Inv s user v = elim (Option-cases (get user s.members)) [
  | inl e ↦ rw (e, stop_screen) v
  | inr (m, e) ↦
      rw (e, stop_screen)
        (let stopped =
            modify-Inv s user stop_sharing v
              (calm s.members user stop_sharing (λ m. (refl, refl, refl, refl))) in
          Pointwise-Inv (record s { members = modify user stop_sharing s.members }) _
            (λ j. stop_watching user)
            (stop_watching-Pointwise user (modify user stop_sharing s.members) stopped.distinct)
            stopped)
]

pub unwatch-Inv : (s : State) (viewer target : Ident) → Inv s → Inv (unwatch s viewer target)
unfolding unwatch
unwatch-Inv s viewer target v = modify-Inv s viewer (stop_watching target) v (record {
  keeps = λ m. (refl, refl, refl);
  watches = λ m t e c. inl (
      (and_parts (not (target == t)) (contains m.watching t)
        (sym (contains-set_remove target t m.watching) ∙ c)).1);
})

pub watch-Inv : (s : State) (viewer target : Ident) → Inv s → Inv (watch s viewer target).1
unfolding watch
watch-Inv s viewer target v = elim (Option-cases (get target s.members)) [
  | inl e ↦ rw (e, watch) v
  | inr (t, e) ↦ elim (Option-cases (get viewer s.members)) [
    | inl e' ↦ rw (e, e', watch) v
    | inr (m, e') ↦ elim (Bool-cases (m.channel == t.channel)) [
      | inr apart ↦ rw (e, e', apart, watch) v
      | inl same ↦
          rw (e, e', same, watch)
            (modify-Inv s viewer (start_watching target) v (joins t m e e' (ground arith)))
    ]
  ]
]
  where
    joins :
        (t m : Member)
        → get target s.members ≡ some t
        → get viewer s.members ≡ some m
        → m.channel ≡ t.channel
        → Gentle s.members viewer (start_watching target)
    joins t m e e' same = record {
      keeps = λ m. (refl, refl, refl);
      watches = λ n u en c.
          elim (or_parts (target == u) (contains n.watching u)
            (sym (contains-set_insert target u n.watching) ∙ c)) [
              | inl here ↦ inr (t, ground arith, ground arith)
              | inr old ↦ inl old
            ];
    }
