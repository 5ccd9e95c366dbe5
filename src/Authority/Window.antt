-- ===== src/Authority/Window.antt =====
-- The window of a valid grant (src/LocalGooseDialogueResponderAuthority.cpp).
use gaudere_agent.Prelude.{
  ℕ, ◌≡◌, refl, inl, inr, true, false, ◌&&◌, arith, int64_max, ℤ, pos, ltb_ℤ, leb_ℤ, ◌-ℤ◌, ◌+ℤ◌,
  ◌≤ℤ◌, Bool-cases, -ℤ_parts, +ℤ_parts,
}
use gaudere_agent.Text.{Text}
use gaudere_agent.Authority.Grant.{valid_grant, refused_grant, grant_expiry, make_grant}

-- The expiry of a grant that is not refused is no overflow.
expiry-window :
    (created ttl : ℤ)
    → leb_ℤ (grant_expiry created ttl) created ≡ false
    → ltb_ℤ created (pos 0) ≡ false
    → (pos 1 ≤ℤ ttl)
      × (grant_expiry created ttl ≡ created +ℤ ttl)
      × (created +ℤ ttl ≤ℤ pos int64_max)
unfolding grant_expiry
expiry-window created ttl e p =
    elim (Bool-cases
      (leb_ℤ (pos 0) created && ltb_ℤ (pos 0) ttl && leb_ℤ created (pos int64_max -ℤ ttl))) [
        | inl y ↦
            rw y (
              ground arith,
              refl,
              ground (arith, -ℤ_parts (pos int64_max) ttl, +ℤ_parts created ttl),
            )
        | inr n ↦ absurd (let bad = rw n at e in ground arith)
      ]

-- For any digest function: a grant is made valid only with a positive time to live that overflows nothing, and then
-- expires exactly that long after its creation.
pub make_grant-window :
    (sha256_hex : Text → Text) (request_id authority_source thread_alias speaker_id : Text)
    (allowed_message_kinds : ℕ) (purpose : Text) (max_turns : ℕ)
    (max_lease_ttl_ms min_interval_ms created_at_ms grant_ttl_ms : ℤ)
    → valid_grant sha256_hex (
        make_grant sha256_hex request_id authority_source thread_alias speaker_id
          allowed_message_kinds purpose max_turns max_lease_ttl_ms min_interval_ms created_at_ms
          grant_ttl_ms)
      ≡ true
    → (pos 1 ≤ℤ grant_ttl_ms)
      × ((make_grant sha256_hex request_id authority_source thread_alias speaker_id
            allowed_message_kinds purpose max_turns max_lease_ttl_ms min_interval_ms created_at_ms
            grant_ttl_ms).expires_at_ms
          ≡ created_at_ms +ℤ grant_ttl_ms)
      × (created_at_ms +ℤ grant_ttl_ms ≤ℤ pos int64_max)
unfolding valid_grant refused_grant make_grant
make_grant-window sha256_hex r a t s k p m l i c g v =
    expiry-window c g (ground arith) (ground arith)
