-- ===== src/Server/Hub/Inv.antt =====
-- What holds of the hub's four maps between any two calls, crates/boa-server/src/hub.rs.
use boa_voice.Prelude.{
  ℕ, ◌^◌, ◌<◌, ◌≡◌, refl, ◌≢◌, ◌⊎◌, inl, inr, true, Option, none, some, sym, ap, ◌∙◌, subst,
}
use boa_voice.Prelude.Map.{Map, get, Distinct}
use boa_voice.Prelude.Sets.{contains}
use boa_voice.Proto.Model.{Ident}
use boa_voice.Proto.Media.{SessionKey}
use boa_voice.Server.Hub.{State, Member}

-- Someone is a member of this channel.
abbrev pub Occupied : State → Ident → Type 0
Occupied s c = (u : Ident) × (m : Member) × (get u s.members ≡ some m) × (m.channel ≡ c)

pub record Inv (s : State) : Type 0 where
  pub distinct : Distinct s.members
  -- A member's two stream ids lead back to the member, and differ.
  pub voice_owned :
      (u : Ident) (m : Member) → get u s.members ≡ some m → get m.voice_ssrc s.by_ssrc ≡ some u
  pub screen_owned :
      (u : Ident) (m : Member) → get u s.members ≡ some m → get m.screen_ssrc s.by_ssrc ≡ some u
  pub apart : (u : Ident) (m : Member) → get u s.members ≡ some m → m.voice_ssrc ≢ m.screen_ssrc
  -- No stream id is left over: each belongs to a member, as one of the member's two.
  pub owners :
      (x u : ℕ)
      → get x s.by_ssrc ≡ some u
      → (m : Member) × (get u s.members ≡ some m) × ((x ≡ m.voice_ssrc) ⊎ (x ≡ m.screen_ssrc))
  pub nonzero : get 0 s.by_ssrc ≡ none
  -- A channel has a key exactly while someone is in it.
  pub keyed :
      (u : Ident) (m : Member)
      → get u s.members ≡ some m
      → (key : SessionKey) × (get m.channel s.keys ≡ some key)
  pub occupied : (c : Ident) (key : SessionKey) → get c s.keys ≡ some key → Occupied s c
  -- Whoever is watched is in the watcher's channel.
  pub watched :
      (u : Ident) (m : Member) (t : Ident)
      → get u s.members ≡ some m
      → contains m.watching t ≡ true
      → (w : Member) × (get t s.members ≡ some w) × (w.channel ≡ m.channel)
  pub next_small : s.next_ssrc < 2 ^ 32

abbrev pub apply : {A B : Type 0} → (A → B) → Option A → Option B
apply f none = none
apply f (some a) = some (f a)

-- `members` changed value by value, no member coming or going.
pub record Pointwise (old new : Map Member) (g : Ident → Member → Member) : Type 0 where
  pub lookup : (j : Ident) → get j new ≡ apply (g j) (get j old)
  pub keeps_distinct : Distinct new
  pub keeps :
      (j : Ident) (m : Member)
      → ((g j m).channel ≡ m.channel)
        × ((g j m).voice_ssrc ≡ m.voice_ssrc)
        × ((g j m).screen_ssrc ≡ m.screen_ssrc)
  pub keeps_watched :
      (j : Ident) (m : Member) (t : Ident)
      → get j old ≡ some m
      → contains (g j m).watching t ≡ true
      → (contains m.watching t ≡ true)
        ⊎ ((w : Member) × (get t old ≡ some w) × (w.channel ≡ m.channel))

apply-some :
    {A B : Type 0} (f : A → B) (o : Option A) (b : B)
    → apply f o ≡ some b
    → (a : A) × (o ≡ some a) × (b ≡ f a)
apply-some f none b e = cc
apply-some f (some a) b e = (a, refl, cc)

module _ (s : State) (new : Map Member) (g : Ident → Member → Member)
    (p : Pointwise s.members new g) (v : Inv s) where
  back :
      (j : Ident) (m' : Member)
      → get j new ≡ some m'
      → (m : Member) × (get j s.members ≡ some m) × (m' ≡ g j m)
  back j m' e = apply-some (g j) (get j s.members) m' (sym (p.lookup j) ∙ e)

  forth : (j : Ident) (m : Member) → get j s.members ≡ some m → get j new ≡ some (g j m)
  forth j m e = p.lookup j ∙ ap (apply (g j)) e

  keep_watched :
      (u : Ident) (m : Member) (t : Ident)
      → get u s.members ≡ some m
      → contains (g u m).watching t ≡ true
      → (w : Member) × (get t s.members ≡ some w) × (w.channel ≡ m.channel)
  keep_watched u m t e c = elim (p.keeps_watched u m t e c) [
    | inl old ↦ v.watched u m t e old
    | inr here ↦ here
  ]

  pub Pointwise-Inv : Inv (record s { members = new })
  Pointwise-Inv = record {
    distinct = p.keeps_distinct;
    voice_owned =
        λ u m' e. let (m, e', q) = back u m' e in rw (q, (p.keeps u m).1) (v.voice_owned u m e');
    screen_owned =
        λ u m' e. let (m, e', q) = back u m' e in rw (q, (p.keeps u m).2) (v.screen_owned u m e');
    apart = λ u m' e.
        let (m, e', q) = back u m' e in rw (q, (p.keeps u m).1, (p.keeps u m).2) (v.apart u m e');
    owners = λ x u e.
        let (m, e', side) = v.owners x u e in
        (g u m, forth u m e', rw ((p.keeps u m).1, (p.keeps u m).2) side);
    nonzero = v.nonzero;
    keyed = λ u m' e.
        let (m, e', q) = back u m' e in
        let (key, k) = v.keyed u m e' in (key, rw (q, (p.keeps u m).0) k);
    occupied = λ c key e.
        let (u, m, e', q) = v.occupied c key e in (u, g u m, forth u m e', (p.keeps u m).0 ∙ q);
    watched = λ u m' t e c.
        let (m, e', q) = back u m' e in
        let (w, ew, same) =
          keep_watched u m t e' (subst (λ (x : Member). contains x.watching t ≡ true) q c) in
        (
          g t w,
          forth t w ew,
          (p.keeps t w).0 ∙ (same ∙ (sym (p.keeps u m).0 ∙ ap (λ (x : Member). x.channel) (sym q))),
        );
    next_small = v.next_small;
  }
