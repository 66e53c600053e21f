-- ===== src/Channel/Copy.antt =====
-- What `deliver_buf` does to memory, and the two buffers of a channel.
use tpa.Base.{
  ℕ, ◌+◌, ◌≤◌, ◌<◌, ◌≡◌, ◌≢◌, ◌⊎◌, refl, Bool, true, ◌&&◌, not, arith, ◌==◌, Bool-cases, inl, inr,
  ne→==, if◌then◌else◌,
}
use tpa.State.{null, World, Config}
use tpa.State.Returns.{Returns}
use tpa.Channel.{ChannelRuntime, deliver_buf, channel_rbuf}
use tpa.Channel.Handoff.{stores, HasStorage}

-- `memcpy` is not called, or for regions that do not overlap, as C wants it.
abbrev pub IsCopyable : ℕ → ℕ → ℕ → Type 0
IsCopyable dst src len = (dst ≡ src) ⊎ ((src + len ≤ dst) ⊎ (dst + len ≤ src))

module _ (cfg : Config) (rt : ChannelRuntime) where
  -- On a channel that has the storage it needs, `deliver_buf` returns an address that holds the
  -- message, byte for byte. It is the address of the message itself unless the channel's storage
  -- is used, and then it is the channel's current buffer. A storage that is used is the message
  -- itself or does not overlap it, and then all of the message still stands at its own address.
  pub deliver_buf-bytes :
      (c src len i : ℕ) (force : Bool) (w : World)
      → HasStorage force (w.chans c)
      → (stores force (w.chans c) ≡ true → IsCopyable (channel_rbuf (w.chans c)) src len)
      → i < len
      → Returns
          (λ buf v.
            (v.mem.bytes (buf + i) ≡ w.mem.bytes (src + i))
            × (v.mem.bytes (src + i) ≡ w.mem.bytes (src + i))
            × (buf ≡ (if stores force (w.chans c) then channel_rbuf (w.chans c) else src)))
          (deliver_buf cfg rt c src len force w)
  unfolding deliver_buf
  deliver_buf-bytes c src len i force w room copyable lt =
      elim (Bool-cases (not force && (w.chans c).nrbuf == 0)) [
        | inl plain ↦ rw plain (refl, refl, refl)
        | inr kept ↦
            let some_buf : channel_rbuf (w.chans c) ≢ null = ground arith in
            let used : stores force (w.chans c) ≡ true = ground (arith, kept) in
            rw (kept, ne→== _ _ some_buf)
              (elim (Bool-cases (channel_rbuf (w.chans c) == src)) [
                | inl same ↦ rw same (ground arith, refl, refl)
                | inr other ↦ rw other (ground arith, ground (arith, copyable used, other), refl)
              ])
      ]

  -- On a channel that has the storage it needs, `deliver_buf` writes no byte outside of the first
  -- `len` of the channel's current buffer.
  pub deliver_buf-frame :
      (c src len a : ℕ) (force : Bool) (w : World)
      → HasStorage force (w.chans c)
      → (a < channel_rbuf (w.chans c)) ⊎ (channel_rbuf (w.chans c) + len ≤ a)
      → Returns (λ _ v. v.mem.bytes a ≡ w.mem.bytes a) (deliver_buf cfg rt c src len force w)
  unfolding deliver_buf
  deliver_buf-frame c src len a force w room out =
      elim (Bool-cases (not force && (w.chans c).nrbuf == 0)) [
        | inl plain ↦ rw plain refl
        | inr kept ↦
            let some_buf : channel_rbuf (w.chans c) ≢ null = ground arith in
            rw (kept, ne→== _ _ some_buf)
              (elim (Bool-cases (channel_rbuf (w.chans c) == src)) [
                | inl same ↦ rw same refl
                | inr other ↦ rw other (ground arith)
              ])
      ]
