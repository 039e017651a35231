-- ===== src/System/Roster/Changes.antt =====
-- What each change of the hub's members says to a roster, crates/boa-server/src/hub.rs.
use boa_voice.Prelude.{◌≡◌, refl, Option, none, some, arith}
use boa_voice.Prelude.Map.{
  Map, get, insert, remove, modify, map_values, get-insert, get-remove, get-modify, get-map_values,
}
use boa_voice.Proto.Model.{Ident, VoiceState, ScreenShare}
use boa_voice.Proto.Control.{ServerMsg}
use boa_voice.Server.Hub.{Member, member_state, stop_watching}
use boa_voice.Server.Hub.Inv.{apply as on_some}
use boa_voice.Client.State.{with_screen}
use boa_voice.System.Roster.{Agrees, voice_step}

module _ (members : Map Member) (v : Map VoiceState) (a : Agrees members v) where
  -- A write to one member that announces the whole state.
  pub modify-Agrees :
      (user : Ident) (m : Member) (f : Member → Member)
      → get user members ≡ some m
      → Agrees
          (modify user f members)
          (voice_step v (ServerMsg.voice_state (member_state user (f m))))
  unfolding voice_step
  modify-Agrees user m f e u =
      ground
        (arith, a u, get-insert user u (member_state user (f m)) v, get-modify user u f members)

  -- A write to one member's screen that announces it.
  pub modify-screen :
      (user : Ident) (m : Member) (f : Member → Member) (screen : Option ScreenShare)
      → get user members ≡ some m
      → member_state user (f m) ≡ with_screen screen (member_state user m)
      → Agrees (modify user f members) (modify user (with_screen screen) v)
  modify-screen user m f screen e same u =
      ground (arith, a u, get-modify user u (with_screen screen) v, get-modify user u f members)

  pub stop_watching-Agrees : (gone : Ident) → Agrees (map_values (stop_watching gone) members) v
  stop_watching-Agrees gone u = told (get u members) refl
    where
      told :
          (o : Option Member)
          → get u members ≡ o
          → get u v ≡ on_some (member_state u) (get u (map_values (stop_watching gone) members))
      told none e = ground (arith, a u, get-map_values u (stop_watching gone) members)
      told (some m) e = ground (arith, a u, get-map_values u (stop_watching gone) members)

  pub remove-Agrees :
      (user : Ident) (m : Member)
      → get user members ≡ some m
      → Agrees (remove user members) (voice_step v (ServerMsg.voice_leave user m.channel))
  unfolding voice_step
  remove-Agrees user m e u =
      ground (arith, a u, a user, get-remove user u v, get-remove user u members)

  pub insert-Agrees :
      (user : Ident) (m : Member)
      → Agrees (insert user m members) (voice_step v (ServerMsg.voice_state (member_state user m)))
  unfolding voice_step
  insert-Agrees user m u =
      ground (arith, a u, get-insert user u (member_state user m) v, get-insert user u m members)

  -- Whom somebody watches is no part of a roster.
  pub watching-Agrees :
      (user : Ident) (f : Member → Member)
      → ((u : Ident) (m : Member) → member_state u (f m) ≡ member_state u m)
      → Agrees (modify user f members) v
  watching-Agrees user f same u = told (get u members) refl
    where
      told :
          (o : Option Member)
          → get u members ≡ o
          → get u v ≡ on_some (member_state u) (get u (modify user f members))
      told none e = ground (arith, a u, get-modify user u f members)
      told (some m) e = ground (arith, a u, get-modify user u f members, same u m)
