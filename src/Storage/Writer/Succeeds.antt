-- ===== src/Storage/Writer/Succeeds.antt =====
-- With no faults a call on a handle on which no write has failed succeeds.
use walspool.Base.{ℕ, ◌-◌, ◌≡◌, refl, true, false, ◌==◌, leb, ◌++◌, Bytes, length, take, if_cases}
use walspool.Storage.Files.{Dir}
use walspool.Storage.State.{Handle, Call, fill, no_faults}
use walspool.Storage.Writer.{
  Outcome, os_write, after_flush, flush_buffer, flush_buffered, write_through, write_rest,
  after_fill, write,
}

abbrev Good : Outcome → Type 0
Good o = o.0 ≡ true

module _ (h : Handle) (d : Dir) (sound : h.write_err ≡ false) where
  pub flush_buffer-Good : (c : Call) → Good (flush_buffer no_faults c h d)
  unfolding flush_buffer after_flush os_write
  flush_buffer-Good c =
      if_cases Good h.write_err (λ f. absurd (cc (f, sound)))
        (λ f. if_cases Good (length h.buffer == 0) (λ z. refl) (λ z. refl))

  pub flush_buffered-Good : (c : Call) → Good (flush_buffered no_faults c h d)
  unfolding flush_buffered
  flush_buffered-Good c =
      if_cases Good (length h.buffer == 0) (λ z. refl) (λ z. flush_buffer-Good c)

after_fill-Good :
    (size : ℕ) (bytes : Bytes) (o : Outcome) → Good o → Good (after_fill no_faults size bytes o)
unfolding after_fill write_rest write_through os_write
after_fill-Good size bytes (true, h, d) g =
    if_cases Good (leb (length bytes) size) (λ z. refl) (λ z. refl)
after_fill-Good size bytes (false, h, d) g = absurd cc

pub write-Good :
    (h : Handle) (d : Dir)
    → h.write_err ≡ false
    → (size : ℕ) (bytes : Bytes) → Good (write no_faults size bytes h d)
unfolding write write_through os_write
write-Good h d sound size bytes =
    if_cases Good h.write_err (λ f. absurd (cc (f, sound)))
      (λ f.
        if_cases Good (leb (length bytes) (size - length h.buffer)) (λ z. refl)
          (λ z.
            if_cases Good (length h.buffer == 0) (λ y. refl)
              (λ y. after_fill-Good size _ _ (
                flush_buffer-Good
                  (record h { buffer = h.buffer ++ take (size - length h.buffer) bytes }) d sound
                  fill))))
