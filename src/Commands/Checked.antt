-- ===== src/Commands/Checked.antt =====
-- commands.go: which commands are sent, and as what.
use esphome_apiclient.Common.{
  ℕ, ◌≡◌, ◌≢◌, refl, none, some, arith, inl, inr, ◌⊎◌, nat_key, true, false, Bool-cases, nat_eq,
  nat_eq_iff,
}
use esphome_apiclient.Common.Maps.{lookup}
use esphome_apiclient.Stream.{err, wrapping}
use esphome_apiclient.Pb.Message.{kind}
use esphome_apiclient.Pb.Registry.{message_registry}
use esphome_apiclient.Entities.Domain.{EntityDomain, domain_eq}
use esphome_apiclient.Entities.Registry.{EntityRegistry}
use esphome_apiclient.Entities.Handle.{by_key, len}
use esphome_apiclient.Client.Framer.{Framer}
use esphome_apiclient.Client.State.{Client}
use esphome_apiclient.Client.Exchange.{Protobuf, send_message}
use esphome_apiclient.Commands.Types.{command_type}
use esphome_apiclient.Commands.Methods.{Command, target, request}
use esphome_apiclient.Commands.Sending.{
  message_error, entity_not_found, entity_type_mismatch, validate_entity, send_command, perform,
}

same_domain : (d : EntityDomain) → domain_eq d d ≡ true
same_domain EntityDomain.sensor = refl
same_domain _ = refl

equal_domains : (d d2 : EntityDomain) → domain_eq d d2 ≡ true → d ≡ d2
equal_domains EntityDomain.sensor EntityDomain.sensor h = refl
equal_domains EntityDomain.binary_sensor EntityDomain.binary_sensor h = refl
equal_domains EntityDomain.cover EntityDomain.cover h = refl
equal_domains EntityDomain.fan EntityDomain.fan h = refl
equal_domains EntityDomain.light EntityDomain.light h = refl
equal_domains EntityDomain.switch EntityDomain.switch h = refl
equal_domains EntityDomain.text_sensor EntityDomain.text_sensor h = refl
equal_domains EntityDomain.camera EntityDomain.camera h = refl
equal_domains EntityDomain.climate EntityDomain.climate h = refl
equal_domains EntityDomain.number EntityDomain.number h = refl
equal_domains EntityDomain.select EntityDomain.select h = refl
equal_domains EntityDomain.siren EntityDomain.siren h = refl
equal_domains EntityDomain.lock EntityDomain.lock h = refl
equal_domains EntityDomain.button EntityDomain.button h = refl
equal_domains EntityDomain.media_player EntityDomain.media_player h = refl
equal_domains EntityDomain.water_heater EntityDomain.water_heater h = refl
equal_domains _ _ h = cc

other_domain : (d d2 : EntityDomain) → d ≢ d2 → domain_eq d d2 ≡ false
other_domain d d2 ne = elim (Bool-cases (domain_eq d d2)) [
  | inl same ↦ absurd (ne (equal_domains d d2 same))
  | inr other ↦ other
]

-- The id that SendCommand gives a request is the id under which the registry has its type.
request_type :
    (cmd : Command)
    → (t : ℕ) × (command_type (request cmd) ≡ some t)
      × (lookup t message_registry ≡ some (kind (request cmd)))
unfolding command_type request message_registry kind
request_type (Command.set_switch k state) = (33, refl, refl)
request_type (Command.set_light k opts) = (32, refl, refl)
request_type (Command.set_climate k opts) = (48, refl, refl)
request_type (Command.set_number k value) = (51, refl, refl)
request_type (Command.set_select k value) = (54, refl, refl)
request_type (Command.press_button k) = (62, refl, refl)
request_type (Command.set_cover k opts) = (30, refl, refl)
request_type (Command.set_fan k opts) = (31, refl, refl)
request_type (Command.set_siren k opts) = (57, refl, refl)
request_type (Command.set_media_player k opts) = (65, refl, refl)
request_type (Command.set_lock k command code) = (60, refl, refl)
request_type (Command.set_cover_position k position) = (30, refl, refl)

-- The registry has no objection to a command: it is empty, or has the entity, of the domain.
abbrev pub Allows : EntityRegistry → ℕ × EntityDomain → Type 0
Allows r (k, d) = (len r ≡ 0) ⊎ ((a : ℕ) × (by_key k r ≡ some (record { domain = d; address = a })))

allowed :
    (k : ℕ) (d : EntityDomain) (r : EntityRegistry) → Allows r (k, d) → validate_entity k d r ≡ none
unfolding validate_entity
allowed k d r (inl e) = rw e refl
allowed k d r (inr (a, e)) = elim (Bool-cases (nat_eq (len r) 0)) [
  | inl empty ↦ rw empty refl
  | inr filled ↦ rw (filled, e, same_domain d) refl
]

module _ (P : Protobuf) (F : Framer) {H : Type 0} where
  -- A command sends its request, once and with the id under which MessageRegistry has the type of the
  -- request, if the entity registry is empty or has the entity under the domain of the command; it
  -- returns what SendMessage returns.
  pub perform_allowed :
      (cmd : Command) (c : Client F.State H)
      → Allows c.entities (target cmd)
      → (t : ℕ) × (lookup t message_registry ≡ some (kind (request cmd)))
        × (perform P F cmd c ≡ wrapping message_error (send_message P F (request cmd) t) c)
  unfolding perform send_command
  perform_allowed cmd c h =
      let (t, sent_as, known) = request_type cmd in
      (
        t,
        known,
        rw (perform, allowed (target cmd).0 (target cmd).1 c.entities h, send_command, sent_as),
      )

  -- In a registry that is not empty, a command for a key that is not there, or that another domain has,
  -- fails with the error for that case; the client is left as it was.
  pub perform_refused :
      (cmd : Command) (c : Client F.State H)
      → len c.entities ≢ 0
      → (by_key (target cmd).0 c.entities ≡ none → perform P F cmd c ≡ (err entity_not_found, c))
        × ((d : EntityDomain) (a : ℕ)
            → by_key (target cmd).0 c.entities ≡ some (record { domain = d; address = a })
            → d ≢ (target cmd).1
            → perform P F cmd c ≡ (err entity_type_mismatch, c))
  unfolding perform validate_entity
  perform_refused cmd c filled =
      let counted : nat_eq (len c.entities) 0 ≡ false =
        ground (arith, nat_eq_iff (len c.entities) 0) in
      (
        (λ e. rw (perform, validate_entity, counted, e) refl),
        (λ d a e ne.
            rw (perform, validate_entity, counted, e, other_domain d (target cmd).1 ne) refl),
      )
