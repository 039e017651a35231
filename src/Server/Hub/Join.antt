-- ===== src/Server/Hub/Join.antt =====
-- Joining a voice channel: `Hub::join_voice` of crates/boa-server/src/hub.rs.
use boa_voice.Prelude.{
  ℕ, ◌+◌, ◌^◌, ◌≤◌, ◌<◌, ◌≡◌, refl, ◌≢◌, ◌⊎◌, inl, inr, true, none, some, ◌==◌, if◌then◌else◌,
  arith, length, Bool-cases, Option-cases, ap, ◌∙◌, subst,
}
use boa_voice.Prelude.Map.{
  Map, get, insert, remove, get-map_values, get-remove, get-insert, insert-Distinct,
}
use boa_voice.Prelude.Sets.{contains}
use boa_voice.Proto.Model.{Ident}
use boa_voice.Proto.Media.{SessionKey}
use boa_voice.Server.Hub.{
  State, Member, Joined, Instant, new_member, admit, key_for, join_voice, remove_member,
  voice_channel_of, stop_watching, member_state,
}
use boa_voice.Server.Hub.Inv.{Inv}
use boa_voice.Server.Hub.Leave.{remove_member-Inv}
use boa_voice.Server.Hub.Ssrc.{Free, take_ssrc-Free, length-remove-le}

-- `admit` puts in somebody who is not there, under two unused stream ids.
module _ (s : State) (user channel vs ss : ℕ) (now : Instant) (fresh : SessionKey) (v : Inv s)
    (absent : get user s.members ≡ none) (free_v : get vs s.by_ssrc ≡ none)
    (free_s : get ss s.by_ssrc ≡ none) (pos_v : vs ≢ 0) (pos_s : ss ≢ 0) (differ : vs ≢ ss) where
  now_in : Member
  now_in = new_member channel vs ss now

  member_at :
      (j : Ident)
      → get j (admit s user channel vs ss now fresh).members
        ≡ (if user == j then some now_in else get j s.members)
  unfolding admit now_in
  member_at j = get-insert user j now_in s.members

  ssrc_at :
      (x : ℕ)
      → get x (admit s user channel vs ss now fresh).by_ssrc
        ≡ (if ss == x then some user else if vs == x then some user else get x s.by_ssrc)
  unfolding admit
  ssrc_at x =
      ground
        (arith, get-insert ss x user (insert vs user s.by_ssrc), get-insert vs x user s.by_ssrc)

  key_at :
      (c : Ident)
      → get c (admit s user channel vs ss now fresh).keys
        ≡ (if channel == c then some (key_for s.keys channel fresh) else get c s.keys)
  unfolding admit
  key_at c = get-insert channel c (key_for s.keys channel fresh) s.keys

  -- A member is the one who came, or one who was there.
  who :
      (j : Ident) (m : Member)
      → get j (admit s user channel vs ss now fresh).members ≡ some m
      → ((user ≡ j) × (m ≡ now_in)) ⊎ ((user ≢ j) × (get j s.members ≡ some m))
  who j m e = elim (Bool-cases (user == j)) [
    | inl same ↦ inl (ground arith, ground (arith, member_at j))
    | inr other ↦ inr (ground arith, ground (arith, member_at j))
  ]

  stays :
      (j : Ident) (m : Member)
      → get j s.members ≡ some m
      → get j (admit s user channel vs ss now fresh).members ≡ some m
  stays j m e = ground (arith, member_at j, absent)

  came : get user (admit s user channel vs ss now fresh).members ≡ some now_in
  came = ground (arith, member_at user)

  kept_ssrc :
      (x u : ℕ)
      → get x s.by_ssrc ≡ some u
      → get x (admit s user channel vs ss now fresh).by_ssrc ≡ some u
  kept_ssrc x u e = ground (arith, ssrc_at x)

  kept_key :
      (c : Ident) (key : SessionKey)
      → get c s.keys ≡ some key
      → get c (admit s user channel vs ss now fresh).keys ≡ some key
  kept_key c key e = elim (Bool-cases (channel == c)) [
    | inr other ↦ ground (arith, key_at c)
    | inl same ↦ key_at c ∙ (rw same (ap some (held (ground arith))))
  ]
    where
      held : channel ≡ c → key_for s.keys channel fresh ≡ key
      held e' = rw (e', e, key_for)

  admit-Inv : Inv (admit s user channel vs ss now fresh)
  unfolding now_in
  admit-Inv = record {
    distinct =
        unfold admit in insert-Distinct user (new_member channel vs ss now) s.members v.distinct;
    voice_owned = λ u m e. elim (who u m e) [
      | inl (same, q) ↦ rw q (ground (arith, ssrc_at vs))
      | inr (ne, old) ↦ kept_ssrc m.voice_ssrc u (v.voice_owned u m old)
    ];
    screen_owned = λ u m e. elim (who u m e) [
      | inl (same, q) ↦ rw q (ground (arith, ssrc_at ss))
      | inr (ne, old) ↦ kept_ssrc m.screen_ssrc u (v.screen_owned u m old)
    ];
    apart =
        λ u m e. elim (who u m e) [ inl (same, q) ↦ rw q differ | inr (ne, old) ↦ v.apart u m old ];
    owners = λ x u e. owner x u e;
    nonzero = ground (arith, ssrc_at 0, v.nonzero);
    keyed = λ u m e. elim (who u m e) [
      | inl (same, q) ↦ (key_for s.keys channel fresh, rw q (ground (arith, key_at channel)))
      | inr (ne, old) ↦ let (key, k) = v.keyed u m old in (key, kept_key m.channel key k)
    ];
    occupied = λ c key e. elim (Bool-cases (channel == c)) [
      | inl same ↦ (user, new_member channel vs ss now, came, ground arith)
      | inr other ↦
          let (u, m, em, q) = v.occupied c key (ground (arith, key_at c)) in (u, m, stays u m em, q)
    ];
    watched = λ u m t e c. elim (who u m e) [
      | inl (same, q) ↦ absurd (no_watch m t q c)
      | inr (ne, old) ↦ let (w, ew, same) = v.watched u m t old c in (w, stays t w ew, same)
    ];
    next_small = unfold admit in v.next_small;
  }
    where
      no_watch :
          (m : Member) (t : Ident)
          → m ≡ new_member channel vs ss now
          → contains m.watching t ≡ true
          → ⊥
      no_watch m t q c =
          unfold contains in cc (subst (λ (x : Member). contains x.watching t ≡ true) q c)

      owner :
          (x u : ℕ)
          → get x (admit s user channel vs ss now fresh).by_ssrc ≡ some u
          → (m : Member) × (get u (admit s user channel vs ss now fresh).members ≡ some m)
            × ((x ≡ m.voice_ssrc) ⊎ (x ≡ m.screen_ssrc))
      owner x u e = elim (Bool-cases (ss == x)) [
        | inl same ↦
            (new_member channel vs ss now, ground (arith, ssrc_at x, came), inr (ground arith))
        | inr ne_s ↦ elim (Bool-cases (vs == x)) [
          | inl same ↦
              (new_member channel vs ss now, ground (arith, ssrc_at x, came), inl (ground arith))
          | inr ne_v ↦
              let (m, em, side) = v.owners x u (ground (arith, ssrc_at x)) in
              (m, stays u m em, side)
        ]
      ]

-- The first half of `join_voice`: the account is in no channel, and its old stream ids are free.
pub remove_member-absent :
    (s : State) (user : Ident) → get user (remove_member s user).1.members ≡ none
unfolding remove_member
remove_member-absent s user = elim (Option-cases (get user s.members)) [
  | inl e ↦ rw (e, remove_member) e
  | inr (m, e) ↦
      rw (e, remove_member)
        (ground (
          arith,
          get-map_values user (stop_watching user) (remove user s.members),
          get-remove user user s.members,
        ))
]

remove_member-kept :
    (s : State) (user : Ident)
    → (length (remove_member s user).1.by_ssrc ≤ length s.by_ssrc)
      × ((remove_member s user).1.next_ssrc ≡ s.next_ssrc)
      × ((remove_member s user).0 ≡ voice_channel_of s user)
unfolding remove_member voice_channel_of
remove_member-kept s user = elim (Option-cases (get user s.members)) [
  | inl e ↦ rw (e, remove_member) (omega arith, refl, refl)
  | inr (m, e) ↦
      rw (e, remove_member)
        (
          omega (
            arith,
            length-remove-le m.screen_ssrc (remove m.voice_ssrc s.by_ssrc),
            length-remove-le m.voice_ssrc s.by_ssrc,
          ),
          refl,
          refl,
        )
]

-- Two free stream ids taken one after the other differ.
apart_ids :
    (n next vs mid ss after : ℕ) (taken : Map Ident)
    → n < 2 ^ 32
    → Free n next taken vs mid
    → Free n mid taken ss after
    → vs ≢ ss
apart_ids n next vs mid ss after taken room a b e =
    omega (arith, a.reached, a.moved, b.reached, b.within)

renumber-Inv : (s : State) (n : ℕ) → n < 2 ^ 32 → Inv s → Inv (record s { next_ssrc = n })
renumber-Inv s n small v = record {
  distinct = v.distinct;
  voice_owned = v.voice_owned;
  screen_owned = v.screen_owned;
  apart = v.apart;
  owners = v.owners;
  nonzero = v.nonzero;
  keyed = v.keyed;
  occupied = v.occupied;
  watched = v.watched;
  next_small = small;
}

-- What `join_voice` promises.
pub record Joins (s : State) (user channel : Ident) (now : Instant) (fresh : SessionKey)
    (j : Joined) (t : State) : Type 0 where
  pub valid : Inv t
  -- It leaves whatever channel the account was in, and says which.
  pub left : j.previous ≡ voice_channel_of s user
  -- The account is a member of the new channel, neither muted nor deafened, sharing and watching
  -- nothing, with no media address; and that is what the reply says.
  pub screen_ssrc : ℕ
  pub member : get user t.members ≡ some (new_member channel j.state.ssrc screen_ssrc now)
  pub announced : j.state ≡ member_state user (new_member channel j.state.ssrc screen_ssrc now)
  -- Nothing else of the members and nothing of the connections is touched.
  pub members :
      t.members
      ≡ insert user
          (new_member channel j.state.ssrc screen_ssrc now)
          (remove_member s user).1.members
  pub conns : t.conns ≡ (remove_member s user).1.conns
  pub previous : j.previous ≡ (remove_member s user).0
  -- The key handed out is the channel's.
  pub key : get channel t.keys ≡ some j.key

-- `join_voice` finds two stream ids while three are unused, and then does all that it promises.
pub join_voice-Joins :
    (s : State) (user channel : Ident) (now : Instant) (fresh : SessionKey)
    → Inv s
    → length s.by_ssrc + 2 < 2 ^ 32
    → (j : Joined) × (t : State) × (join_voice s user channel now fresh ≡ some (j, t))
      × Joins s user channel now fresh j t
unfolding join_voice
join_voice-Joins s user channel now fresh v room =
    let r = (remove_member s user).1 in
    let (shrunk, same_next, left) = remove_member-kept s user in
    let vr = remove_member-Inv s user v in
    let (vs, mid, e₁, f₁) = take_ssrc-Free r vr.next_small (omega arith) in
    let (ss, after, e₂, f₂) =
      take_ssrc-Free (record r { next_ssrc = mid }) (omega (arith, f₁.moved)) (omega arith) in
    let s₃ = record r { next_ssrc = after } in
    let v₃ : Inv s₃ = renumber-Inv r after (omega (arith, f₂.moved)) vr in
    (
      record {
        state = member_state user (new_member channel vs ss now);
        key = key_for r.keys channel fresh;
        previous = (remove_member s user).0;
      },
      admit s₃ user channel vs ss now fresh,
      rw (e₁, e₂),
      record {
        valid =
            admit-Inv s₃ user channel vs ss now fresh v₃ (remove_member-absent s user) f₁.unused
              f₂.unused f₁.positive f₂.positive
              (apart_ids (length r.by_ssrc + 2) r.next_ssrc vs mid ss after r.by_ssrc (omega arith)
                f₁ f₂);
        left = left;
        screen_ssrc = ss;
        member =
            unfold now_in in
            came s₃ user channel vs ss now fresh v₃ (remove_member-absent s user) f₁.unused
              f₂.unused f₁.positive f₂.positive
              (apart_ids (length r.by_ssrc + 2) r.next_ssrc vs mid ss after r.by_ssrc (omega arith)
                f₁ f₂);
        announced = refl;
        members = unfold admit in refl;
        conns = unfold admit in refl;
        previous = refl;
        key =
            unfold admit in
            ground (arith, get-insert channel channel (key_for r.keys channel fresh) r.keys);
      },
    )
