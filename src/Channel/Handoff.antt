-- ===== src/Channel/Handoff.antt =====
-- The parts that both sides of a rendezvous share, over any runtime that keeps the laws.
use tpa.Base.{
  ℕ, ◌≡◌, ◌≢◌, ◌⊎◌, fun_ext, Bool, false, ◌&&◌, not, arith, ◌==◌, Bool-cases, inl, inr, ne→==,
  if◌then◌else◌,
}
use tpa.State.{null, Chan, ChannelEp, act, ◌>>◌, World, Config}
use tpa.State.Kind
use tpa.State.Returns
use tpa.State.Returns.{Returns, LocksFree}
use tpa.Channel.{
  ChannelRuntime, channel_trace, rotate_buf, channel_rbuf, deliver_buf, call_wake_ep, call_run_proc,
}
use tpa.Channel.Laws.{Keeps, RuntimeLaws, Leaves, then-Keeps}

-- A channel whose kind the core carries out.
abbrev pub IsCarried : Chan → Type 0
IsCarried ch = ((ch.kind ≡ Kind.direct) ⊎ (ch.kind ≡ Kind.local)) ⊎ (ch.kind ≡ Kind.fabric)

-- Whether a message goes through the channel's own storage.
abbrev pub stores : Bool → Chan → Bool
stores force ch = not (not force && ch.nrbuf == 0)

-- The channel has the storage that it needs.
abbrev pub HasStorage : Bool → Chan → Type 0
HasStorage force ch = (stores force ch ≡ false) ⊎ (channel_rbuf ch ≢ null)

-- The buffers of a channel after a message has gone through it.
abbrev pub turned : Bool → Chan → Chan
turned force ch = if stores force ch then rotate_buf ch else ch

module _ (cfg : Config) (rt : ChannelRuntime) where
  pub deliver_buf-Leaves :
      (c src len : ℕ) (force : Bool) (u : World)
      → HasStorage force (u.chans c)
      → LocksFree u
      → Returns
          (λ _ v. Leaves u c (turned force (u.chans c)) v)
          (deliver_buf cfg rt c src len force u)
  unfolding deliver_buf
  deliver_buf-Leaves c src len force u room free =
      elim (Bool-cases (not force && (u.chans c).nrbuf == 0)) [
        | inl plain ↦ rw plain (record { chans = fun_ext λ d. ground arith; locks = free })
        | inr kept ↦
            let some_buf : channel_rbuf (u.chans c) ≢ null = ground arith in
            rw (kept, ne→== _ _ some_buf)
              (elim (Bool-cases (channel_rbuf (u.chans c) == src)) [
                | inl same ↦ rw same (record { chans = fun_ext λ d. ground arith; locks = free })
                | inr other ↦ rw other (record { chans = fun_ext λ d. ground arith; locks = free })
              ])
      ]

  -- How both handoffs end: the other side is woken, and the caller runs on.
  pub finish_handoff :
      (w : World) (c : ℕ) (ch : Chan) (p next tag : ℕ) (u : World)
      → RuntimeLaws cfg rt
      → Leaves w c ch u
      → (ep : ChannelEp)
      → Returns
          (λ _ v. Leaves w c ch v)
          ((do call_wake_ep cfg rt ep; call_run_proc cfg rt p next; act (channel_trace cfg rt tag))
            u)
  finish_handoff w c ch p next tag u laws l ep =
      Returns.bind (λ _ v. Keeps u v) _ _ _ (laws.waking ep u l.locks)
        (λ _ v k.
          Returns.bind (λ _ x. Keeps v x) _ _ _ (laws.running p next v k.locks)
            (λ _ x k'.
              then-Keeps c (then-Keeps c (then-Keeps c l k) k') (laws.tracing tag x k'.locks)))
