-- ===== src/System/Roster/Ready.antt =====
-- `Hub::voice_states` of crates/boa-server/src/hub.rs, sent in `ready`, against the roster that
-- `State::apply` of crates/boa-client/src/state.rs makes of it.
use boa_voice.Prelude.{
  ◌≡◌, refl, Bool, Option, none, some, List, [], ◌∷◌, ◌==◌, if◌then◌else◌, arith, sym, ap, ◌∙◌,
  Bool-cases, Option-cases, inl, inr, subst, map, ◌≢◌,
}
use boa_voice.Prelude.Map.{Map, get, insert, get-insert, Distinct}
use boa_voice.Prelude.Sorting.{sort_by, insert_sorted}
use boa_voice.Proto.Model.{Ident, VoiceState}
use boa_voice.Server.Hub
use boa_voice.Server.Hub.{Member, member_state, by_user, voice_states}
use boa_voice.Server.Hub.Inv.{apply as on_some}
use boa_voice.Client.State.{index_voice}
use boa_voice.System.Roster.{Agrees}

-- The last state of an account is the one that counts.
abbrev last_of : Option VoiceState → VoiceState → Ident → Option VoiceState
last_of none v u = if v.user == u then some v else none
last_of (some w) v u = some w

last_of-absent :
    (o : Option VoiceState) (v : VoiceState) (u : Ident)
    → (v.user ≡ u → o ≡ none)
    → last_of o v u ≡ (if v.user == u then some v else o)
last_of-absent none v u h = refl
last_of-absent (some w) v u h = elim (Bool-cases (v.user == u)) [
  | inl same ↦ absurd (no_value (h (ground arith)))
  | inr other ↦ rw other refl
]
  where
    no_value : some w ≡ none → ⊥
    no_value e = cc

last_of-kept :
    (o : Option VoiceState) (v : VoiceState) (u : Ident)
    → (v.user ≡ u → o ≢ none)
    → last_of o v u ≡ o
last_of-kept none v u h = elim (Bool-cases (v.user == u)) [
  | inl same ↦ absurd (h (ground arith) refl)
  | inr other ↦ rw other refl
]
last_of-kept (some w) v u h = refl

get-index_voice :
    (v : VoiceState) (rest : List VoiceState) (u : Ident)
    → get u (index_voice (v ∷ rest)) ≡ last_of (get u (index_voice rest)) v u
get-index_voice v rest u = elim (Option-cases (get v.user (index_voice rest))) [
  | inl e ↦
      rw (e, index_voice)
        (get-insert v.user u v (index_voice rest)
          ∙ sym (last_of-absent (get u (index_voice rest)) v u (λ same. rw (sym same) e)))
  | inr (w, e) ↦
      rw (e, index_voice)
        (sym (
          last_of-kept (get u (index_voice rest)) v u (λ same none_there. there same none_there e)))
]
  where
    there :
        {w : VoiceState}
        → v.user ≡ u
        → get u (index_voice rest) ≡ none
        → get v.user (index_voice rest) ≡ some w
        → ⊥
    there same none_there e = cc

module _ (le : VoiceState → VoiceState → Bool) where
  get-insert_sorted :
      (v : VoiceState) (l : List VoiceState) (u : Ident)
      → get v.user (index_voice l) ≡ none
      → get u (index_voice (insert_sorted le v l))
        ≡ (if v.user == u then some v else get u (index_voice l))
  unfolding insert_sorted get insert
  get-insert_sorted v [] u e = refl
  get-insert_sorted v (x ∷ xs) u e = elim (Bool-cases (le v x)) [
    | inl below ↦ rw below (
        get-index_voice v (x ∷ xs) u
        ∙ last_of-absent (get u (index_voice (x ∷ xs))) v u
            (λ same. subst (λ k. get k (index_voice (x ∷ xs)) ≡ none) same e))
    | inr above ↦ rw above (
        get-index_voice x (insert_sorted le v xs) u
        ∙ ground
            (arith, get-insert_sorted v xs u, get-index_voice x xs u, get-index_voice x xs v.user))
  ]

sorted-Agrees :
    (members : Map Member) (u : Ident)
    → Distinct members
    → get u (index_voice (sort_by by_user (map (λ e. member_state e.0 e.1) members)))
      ≡ on_some (member_state u) (get u members)
unfolding sort_by get
sorted-Agrees [] u d = refl
sorted-Agrees ((j, m) ∷ rest) u d =
    get-insert_sorted by_user (member_state j m) _ u
      (sorted-Agrees rest j d.1 ∙ ap (on_some (member_state j)) d.0)
    ∙ elim (Bool-cases (j == u)) [
      | inl same ↦ rw same (ap (λ k. some (member_state k m)) (ground arith))
      | inr other ↦ rw other (sorted-Agrees rest u d.1)
    ]

-- The roster that a client makes of `ready` is the hub's.
pub voice_states-Agrees :
    (s : Hub.State) → Distinct s.members → Agrees s.members (index_voice (voice_states s))
unfolding voice_states
voice_states-Agrees s d u = sorted-Agrees s.members u d
