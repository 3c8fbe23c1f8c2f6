-- ===== src/Tux/Ioctl.antt =====
-- mp2_rthakk21/module/tuxctl-ioctl.c: what `tuxctl_ioctl` returns, and what a failure leaves alone.
use ece391_sp.Prelude.{
  ◌≡◌, ◌⊎◌, inl, inr, refl, ℕ, Bool, true, false, some, ◌==◌, ℤ, pos, arith, Bool-cases,
}
use ece391_sp.Tux.Discipline.{Line}
use ece391_sp.Tux.Driver.{
  Tux, Cmd, IsTux, UserMemory, tuxctl_ioctl, tux_buttons, einval, tux_init_cmd, tux_buttons_cmd,
  tux_set_led_cmd, tux_read_led_cmd, tux_led_request_cmd, tux_led_ack_cmd, other_cmd,
}
use ece391_sp.Tux.Packets.{tux_init_lem, set_led_ioctl_lem}

module _ {D : Type 0} {U : Type 0} (line : Line D) (user : UserMemory U) where
  -- The commands that the driver does not reject.
  abbrev pub is_served : Cmd → Bool
  is_served tux_init_cmd = true
  is_served tux_buttons_cmd = true
  is_served tux_set_led_cmd = true
  is_served _ = false

  -- The outcome of a call.
  pub record Called (cmd : Cmd) (arg : ℕ) (s s' : Tux D) (u : U) (ret : ℤ) : Type 0 where
    pub valid : IsTux s'
    pub result : (ret ≡ pos 0) ⊎ (ret ≡ einval)
    pub failure : ret ≡ einval → s' ≡ s
    pub rejected : is_served cmd ≡ false → ret ≡ einval
    pub null : cmd ≡ tux_buttons_cmd → arg ≡ 0 → ret ≡ einval

  buttons_result :
      (arg : ℕ) (s : Tux D) (u : U)
      → ((tux_buttons line user arg s u).0 ≡ pos 0) ⊎ ((tux_buttons line user arg s u).0 ≡ einval)
  unfolding tux_buttons
  buttons_result arg s u = elim (Bool-cases (arg == 0)) [
    | inl null ↦ inr (rw null)
    | inr given ↦ elim (Bool-cases ((user.copy_to_user arg s.button_val u).0 == 0)) [
      | inl copied ↦ inl (rw (given, copied))
      | inr left ↦ inr (rw (given, left))
    ]
  ]

  buttons_null :
      (arg : ℕ) (s : Tux D) (u : U) → arg ≡ 0 → (tux_buttons line user arg s u).0 ≡ einval
  unfolding tux_buttons
  buttons_null arg s u e = rw e

  rejected_lem :
      (cmd : Cmd) (arg : ℕ) {s : Tux D} (u : U)
      → IsTux s
      → is_served cmd ≡ false
      → Called cmd arg s s u einval
  rejected_lem cmd arg u v e = record {
    valid = v;
    result = inr refl;
    failure = λ _. refl;
    rejected = λ _. refl;
    null = λ _ _. refl;
  }

  -- On an open line every ioctl returns 0 or -EINVAL and leaves the line valid; a failure leaves
  -- the driver's state as it was; an unknown command and the three that the driver does not serve
  -- fail, and so does TUX_BUTTONS with a null pointer.
  pub tuxctl_ioctl_lem :
      (cmd : Cmd) (arg : ℕ) {s : Tux D} (u : U)
      → IsTux s
      → (ret : ℤ) × (s' : Tux D) × (u' : U) × (tuxctl_ioctl line user cmd arg s u
          ≡ some (ret, s', u'))
        × Called cmd arg s s' u ret
  unfolding tuxctl_ioctl
  tuxctl_ioctl_lem tux_init_cmd arg {s} u v =
      let (s', e, k, f, b) = tux_init_lem line v in
      (
        pos 0,
        s',
        u,
        rw e,
        record {
          valid = k.valid;
          result = inl refl;
          failure = λ h. absurd (ground (arith, h));
          rejected = λ h. absurd (ground (arith, h));
          null = λ h _. absurd (ground (arith, h));
        },
      )
  tuxctl_ioctl_lem tux_set_led_cmd arg {s} u v =
      let (s', e, w, ready, busy) = set_led_ioctl_lem line user arg v in
      (
        pos 0,
        s',
        u,
        rw e,
        record {
          valid = w;
          result = inl refl;
          failure = λ h. absurd (ground (arith, h));
          rejected = λ h. absurd (ground (arith, h));
          null = λ h _. absurd (ground (arith, h));
        },
      )
  tuxctl_ioctl_lem tux_buttons_cmd arg {s} u v = (
    (tux_buttons line user arg s u).0,
    s,
    (tux_buttons line user arg s u).1,
    refl,
    record {
      valid = v;
      result = buttons_result arg s u;
      failure = λ _. refl;
      rejected = λ h. absurd (ground (arith, h));
      null = λ _. buttons_null arg s u;
    },
  )
  tuxctl_ioctl_lem tux_read_led_cmd arg {s} u v =
      (einval, s, u, refl, rejected_lem tux_read_led_cmd arg u v refl)
  tuxctl_ioctl_lem tux_led_request_cmd arg {s} u v =
      (einval, s, u, refl, rejected_lem tux_led_request_cmd arg u v refl)
  tuxctl_ioctl_lem tux_led_ack_cmd arg {s} u v =
      (einval, s, u, refl, rejected_lem tux_led_ack_cmd arg u v refl)
  tuxctl_ioctl_lem (other_cmd n) arg {s} u v =
      (einval, s, u, refl, rejected_lem (other_cmd n) arg u v refl)
