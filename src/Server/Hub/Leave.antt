-- ===== src/Server/Hub/Leave.antt =====
-- Leaving a voice channel: `State::remove_member` of crates/boa-server/src/hub.rs.
use boa_voice.Prelude.{
  ℕ, ◌≡◌, ◌≢◌, ◌⊎◌, inl, inr, true, false, none, some, ◌==◌, if◌then◌else◌, arith, sym, ap, ◌∙◌,
  subst, Option-cases, Bool-cases, not, and_parts,
}
use boa_voice.Prelude.Map.{
  get, remove, Distinct, any_value, get-map_values, map_values-Distinct, get-remove,
  remove-Distinct, any_value-true, any_value-get,
}
use boa_voice.Prelude.Sets.{contains, contains-set_remove}
use boa_voice.Proto.Model.{Ident}
use boa_voice.Proto.Media.{SessionKey}
use boa_voice.Server.Hub.{State, Member, stop_watching, without, remove_member, is_in}
use boa_voice.Server.Hub.Inv.{Inv, Occupied}

module _ (s : State) (user : Ident) (gone : Member) (v : Inv s)
    (there : get user s.members ≡ some gone) where
  -- Who is left was there before, is somebody else, and no longer watches the one who left.
  left_back :
      (j : Ident) (m' : Member)
      → get j (without s user gone).members ≡ some m'
      → (m : Member) × (get j s.members ≡ some m) × (m' ≡ stop_watching user m) × (user ≢ j)
  left_back j m' e = elim (Option-cases (get j s.members)) [
    | inl none_there ↦ absurd (
        ground (
          arith,
          get-map_values j (stop_watching user) (remove user s.members),
          get-remove user j s.members,
        ))
    | inr (m, e') ↦ (
      m,
      e',
      ground (
        arith,
        get-map_values j (stop_watching user) (remove user s.members),
        get-remove user j s.members,
      ),
      ground (
        arith,
        get-map_values j (stop_watching user) (remove user s.members),
        get-remove user j s.members,
      ),
    )
  ]

  left_forth :
      (j : Ident) (m : Member)
      → get j s.members ≡ some m
      → user ≢ j
      → get j (without s user gone).members ≡ some (stop_watching user m)
  left_forth j m e ne = ground (
    arith,
    get-map_values j (stop_watching user) (remove user s.members),
    get-remove user j s.members,
  )

  left-Distinct : Distinct (without s user gone).members
  left-Distinct =
      map_values-Distinct (stop_watching user) (remove user s.members)
        (remove-Distinct user s.members v.distinct)

  left_ssrc :
      (x : ℕ)
      → get x (without s user gone).by_ssrc ≡ (
          if gone.screen_ssrc == x
          then none
          else if gone.voice_ssrc == x
          then none
          else get x s.by_ssrc)
  left_ssrc x = ground (
    arith,
    get-remove gone.screen_ssrc x (remove gone.voice_ssrc s.by_ssrc),
    get-remove gone.voice_ssrc x s.by_ssrc,
  )

  left_owned :
      (j x : ℕ) → get x s.by_ssrc ≡ some j → user ≢ j → get x (without s user gone).by_ssrc ≡ some j
  left_owned j x e ne =
      ground (arith, left_ssrc x, v.voice_owned user gone there, v.screen_owned user gone there)

  left_was : (x u : ℕ) → get x (without s user gone).by_ssrc ≡ some u → get x s.by_ssrc ≡ some u
  left_was x u e = ground (arith, left_ssrc x)

  -- A stream id that is left over belongs to somebody else.
  left_other :
      (x u : ℕ)
      → get x (without s user gone).by_ssrc ≡ some u
      → (m : Member) → get u s.members ≡ some m
      → ((x ≡ m.voice_ssrc) ⊎ (x ≡ m.screen_ssrc))
      → user ≢ u
  left_other x u e m em side same = ground (arith, left_ssrc x, there)

  left_keyed :
      (c : Ident) (key : SessionKey)
      → get c s.keys ≡ some key
      → any_value (is_in c) (without s user gone).members ≡ true
      → get c (without s user gone).keys ≡ some key
  left_keyed c key e some_in =
      elim (Bool-cases (any_value (is_in gone.channel) (without s user gone).members)) [
        | inl still ↦ rw still e
        | inr emptied ↦ rw emptied (ground (arith, get-remove gone.channel c s.keys, same_test c))
      ]
    where
      same_test :
          (c : Ident)
          → gone.channel ≡ c
          → any_value (is_in gone.channel) (without s user gone).members
            ≡ any_value (is_in c) (without s user gone).members
      same_test c e = rw e

  left-Occupied :
      (c : Ident) (key : SessionKey)
      → get c (without s user gone).keys ≡ some key
      → Occupied (without s user gone) c
  left-Occupied c key e =
      elim (Bool-cases (any_value (is_in gone.channel) (without s user gone).members)) [
        | inl still ↦ elim (Bool-cases (gone.channel == c)) [
          | inl same ↦
              let (u, m, em, q) =
                any_value-true (is_in gone.channel) (without s user gone).members left-Distinct
                  still in
              (u, m, em, ground arith)
          | inr other ↦ elsewhere (v.occupied c key (rw still at e)) (ground arith)
        ]
        | inr emptied ↦
            elsewhere (v.occupied c key (ground (arith, kept emptied)))
              (ground (arith, kept emptied))
      ]
    where
      kept :
          any_value (is_in gone.channel) (without s user gone).members ≡ false
          → (if gone.channel == c then none else get c s.keys) ≡ some key
      kept emptied = sym (get-remove gone.channel c s.keys) ∙ (rw emptied at e)

      elsewhere : Occupied s c → gone.channel ≢ c → Occupied (without s user gone) c
      elsewhere (u, m, em, q) ne =
          (u, stop_watching user m, left_forth u m em (λ same. ne (ground (arith, same))), q)

  pub without-Inv : Inv (without s user gone)
  without-Inv = record {
    distinct = left-Distinct;
    voice_owned = λ u m' e.
        let (m, e', q, ne) = left_back u m' e in
        rw q (left_owned u m.voice_ssrc (v.voice_owned u m e') ne);
    screen_owned = λ u m' e.
        let (m, e', q, ne) = left_back u m' e in
        rw q (left_owned u m.screen_ssrc (v.screen_owned u m e') ne);
    apart = λ u m' e. let (m, e', q, ne) = left_back u m' e in rw q (v.apart u m e');
    owners = λ x u e.
        let (m, e', side) = v.owners x u (left_was x u e) in
        (stop_watching user m, left_forth u m e' (left_other x u e m e' side), side);
    nonzero = ground (arith, left_ssrc 0, v.nonzero);
    keyed = λ u m' e.
        let (m, e', q, ne) = left_back u m' e in
        let (key, k) = v.keyed u m e' in
        (
          key,
          left_keyed m'.channel key (rw q k) (
              any_value-get (is_in m'.channel) (without s user gone).members u m' e (ground arith)),
        );
    occupied = left-Occupied;
    watched = λ u m' t e c.
        let (m, e', q, ne) = left_back u m' e in
        let both = and_parts (not (user == t)) (contains m.watching t) (
          sym (contains-set_remove user t m.watching)
          ∙ subst (λ (x : Member). contains x.watching t ≡ true) q c) in
        let (w, ew, same) = v.watched u m t e' both.1 in
        (
          stop_watching user w,
          left_forth t w ew (ground (arith, both.0)),
          same ∙ sym (ap (λ (x : Member). x.channel) q),
        );
    next_small = v.next_small;
  }

-- Taking a member out keeps the invariant.
pub remove_member-Inv : (s : State) (user : Ident) → Inv s → Inv (remove_member s user).1
unfolding remove_member
remove_member-Inv s user v = elim (Option-cases (get user s.members)) [
  | inl e ↦ rw (e, remove_member) v
  | inr (m, e) ↦ rw (e, remove_member) (without-Inv s user m v e)
]
