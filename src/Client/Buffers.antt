-- ===== src/Client/Buffers.antt =====
-- conn_client_free of src/async_conn.cpp: what is left of a client that is freed.
use gko_pool.Prelude.{zero, suc, ◌+◌, ◌≡◌, ◌≢◌, refl, arith, false, ◌∷◌, ◌==◌}
use gko_pool.Prelude.Int.{ℤ, pos, negsuc, pos_part, neg_part, ◌-ℤ◌}
use gko_pool.Client.{Client, World, conn_client_clear, conn_client_free}

-- A client that is freed: its slot is unused, it has no buffer, its descriptor is closed and one
-- client less is counted.
pub record Freed (c : Client) (w : World) (r : Client × World × ℤ) : Type 0 where
  pub unused : r.0.conn_time ≡ 0
  pub no_buffers : (r.0.read_buffer ≡ 0) × (r.0.send_buffer ≡ 0)
  pub same_id : r.0.id ≡ c.id
  pub closes : r.1.closed ≡ c.client_fd ∷ w.closed
  pub counted : r.1.g_total_clients ≡ w.g_total_clients -ℤ pos 1
  pub conn_set : r.1.conn_set ≡ w.conn_set
  pub result : r.2 ≡ pos 0

has_fd : (fd : ℤ) → fd ≢ pos 0 → (pos_part fd + neg_part fd == 0) ≡ false
has_fd (pos zero) ne = absurd (ne refl)
has_fd (pos (suc n)) ne = ground arith
has_fd (negsuc n) ne = ground arith

-- Where a client has a descriptor, that is not 0, conn_client_free closes it, leaves no buffer and
-- no time in the slot, which makes it free for the next client, and counts one client less; the
-- result is 0.
pub conn_client_free-Freed :
    (c : Client) (w : World) → c.client_fd ≢ pos 0 → Freed c w (conn_client_free c w)
unfolding conn_client_free conn_client_clear
conn_client_free-Freed c w fd = rw (has_fd c.client_fd fd) record {
  unused = refl;
  no_buffers = (refl, refl);
  same_id = refl;
  closes = refl;
  counted = refl;
  conn_set = refl;
  result = refl;
}
