-- ===== src/Realtime/Rooms.antt =====
-- Whom an event reaches: the rooms that a client joins.
use Prim.Native.Char.{code}
use guff_suff.Prelude.{
  ◌≡◌, ◌≢◌, refl, sym, ap, ◌∙◌, inl, inr, ◌⊎◌, ◌↔◌, String, Bool, true, false, Option, none, some,
  [], ◌∷◌, ◌==◌, arith, if◌then◌else◌, In,
}
use guff_suff.Text.{concat}
use guff_suff.Realtime.{
  Handshake, Call, join, disconnect, handle_connection, is_absent, user_room, device_room,
}

after_first : String → String
after_first String.[] = String.[]
after_first (String.◌∷◌ c s) = s

starts_with_u : String → Bool
starts_with_u String.[] = false
starts_with_u (String.◌∷◌ c s) = code c == 117

user_room_injective : (a b : String) → user_room a ≡ user_room b → a ≡ b
unfolding after_first concat
user_room_injective a b h =
    ap (λ s. after_first (after_first (after_first (after_first (after_first s))))) h

device_room_injective : (a b : String) → device_room a ≡ device_room b → a ≡ b
unfolding after_first concat
device_room_injective a b h =
    ap
      (λ s.
        after_first
          (after_first (after_first (after_first (after_first (after_first (after_first s)))))))
      h

rooms_apart : (a b : String) → user_room a ≢ device_room b
unfolding starts_with_u concat
rooms_apart a b h = cc (ap starts_with_u h)

-- What a handshake has to bring for the room of a user, and for that of a device.
abbrev pub Admits : Handshake → Type 0
Admits auth =
    (is_absent auth.token ≡ false)
    × (is_absent auth.device_id ≡ false)
    × (is_absent auth.user_id ≡ false)

module _ (P : Type 0) where
  -- One of the two rooms, where the handshake is let through.
  joined_cases :
      (refused : Bool) (r d v : String)
      → In {A = Call P}
          (join r)
          (if refused then disconnect ∷ [] else join (user_room v) ∷ join (device_room d) ∷ [])
      → (refused ≡ false) × ((r ≡ user_room v) ⊎ (r ≡ device_room d))
  joined_cases true r d v (inl e) = cc
  joined_cases true r d v (inr i) = absurd i
  joined_cases false r d v (inl e) = (refl, inl cc)
  joined_cases false r d v (inr (inl e)) = (refl, inr cc)
  joined_cases false r d v (inr (inr i)) = absurd i

  no_join :
      (refused : Bool) (r : String)
      → In {A = Call P} (join r) (if refused then disconnect ∷ [] else disconnect ∷ [])
      → ⊥
  no_join true r (inl e) = cc
  no_join true r (inr i) = i
  no_join false r (inl e) = cc
  no_join false r (inr i) = i

  -- The handler gives a socket a room only if token, device and user of its handshake are there, and
  -- then the room of the user that it names or that of the device that it names.
  pub handle_connection-join :
      (auth : Handshake) (r : String)
      → In {A = Call P} (join r) (handle_connection auth)
      → Admits auth
        × (((u : String) → r ≡ user_room u → auth.user_id ≡ some u)
            × ((d : String) → r ≡ device_room d → auth.device_id ≡ some d))
  unfolding handle_connection
  handle_connection-join auth r i = go auth.token auth.device_id auth.user_id i
    where
      go :
          (t d v : Option String)
          → In {A = Call P}
              (join r)
              (handle_connection (record { token = t; device_id = d; user_id = v }))
          → Admits (record { token = t; device_id = d; user_id = v })
            × (((u : String) → r ≡ user_room u → v ≡ some u)
                × ((e : String) → r ≡ device_room e → d ≡ some e))
      go none d v i = absurd (no_join true r i)
      go (some t) none v i = absurd (no_join _ r i)
      go (some t) (some d) none i = absurd (no_join _ r i)
      go (some t) (some d) (some v) i =
          let c = joined_cases _ r d v i in
          (
            ground (arith, c.0),
            elim c.1 [
              | inl e ↦ (
                λ u h. ap some (user_room_injective v u (sym e ∙ h)),
                λ f h. absurd (rooms_apart v f (sym e ∙ h)),
              )
              | inr e ↦ (
                λ u h. absurd (rooms_apart u d (sym h ∙ e)),
                λ f h. ap some (device_room_injective d f (sym e ∙ h)),
              )
            ],
          )

  -- A socket gets the room of a user, to which the identity notifications of that user go, exactly if
  -- its handshake names the user, any device and any token: nothing is asked of the token but that it
  -- is not empty.
  pub handle_connection_iff :
      (auth : Handshake) (u : String)
      → In {A = Call P} (join (user_room u)) (handle_connection auth)
        ↔ (Admits auth × (auth.user_id ≡ some u))
  unfolding handle_connection
  handle_connection_iff auth u = (
    λ i. let h = handle_connection-join auth (user_room u) i in (h.0, h.1.0 u refl),
    λ h. go auth.token auth.device_id auth.user_id h.0 h.1,
  )
    where
      go :
          (t d v : Option String)
          → Admits (record { token = t; device_id = d; user_id = v })
          → v ≡ some u
          → In {A = Call P}
              (join (user_room u))
              (handle_connection (record { token = t; device_id = d; user_id = v }))
      go t none v a e = absurd (ground (arith, a))
      go t (some d) none a e = absurd (ground (arith, e))
      go t (some d) (some v) a e = rw (a.0, a.1, a.2) (inl cc)
