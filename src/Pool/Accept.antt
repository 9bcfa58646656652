-- ===== src/Pool/Accept.antt =====
-- gko_pool::conn_tcp_server_accept of src/async_conn.cpp.
use gko_pool.Prelude.{ℕ, true, ◌≡◌, Bool, Option, none, some, List, ◌∷◌, ◌⊎◌, if◌then◌else◌, ◌<◌}
use gko_pool.Prelude.Int.{ℤ, pos, negsuc, ltb_ℤ}
use gko_pool.Client.{Client, World, ConnType, conn_client_free}
use gko_pool.Pool.{thread_worker_dispatch, Pool, put, add_new_conn_client}
use gko_pool.Sockets.{setnonblock}

-- What a call leaves: the pool, the world, and the worker with the number of the client that it is handed.
abbrev pub Accepted : Type 0
Accepted = Pool × World × Option (ℕ × ℕ)

abbrev pub hand_over : Pool → World → ℕ → Bool → Accepted
hand_over p w c_id written =
    let (p', handed) = thread_worker_dispatch p c_id written in (p', w, handed)

-- What happens to the client that has been added, or to the descriptor if there is none.
pub accept_client : ℤ → ℕ → ℕ → ℤ → Bool → Bool → Pool × World × Option Client → Accepted
accept_client fd addr port flags set written (p, w, none) =
    (p, record w { closed = fd ∷ w.closed }, none)
accept_client fd addr port flags set written (p, w, some client) =
    let (freed, w', result) = conn_client_free client w in
    let served = record client { client_addr = addr; client_port = port; type = ConnType.coming } in
    if ltb_ℤ (setnonblock flags set).0 (pos 0)
    then (record p { g_client_list = put p.g_client_list client.id freed }, w', none)
    else hand_over (record p { g_client_list = put p.g_client_list client.id served }) w client.id
        written

-- conn_tcp_server_accept on what accept, setnonblock's calls and the write to the pipe answer.
pub conn_tcp_server_accept : Pool → World → ℤ → ℕ → ℕ → ℤ → Bool → Bool → Accepted
conn_tcp_server_accept p w (negsuc n) addr port flags set written = (p, w, none)
conn_tcp_server_accept p w (pos fd) addr port flags set written =
    accept_client (pos fd) addr port flags set written (add_new_conn_client p w (pos fd))

-- The descriptor is closed and handed to nobody, or it is that of a client in the list, of a coming
-- connection, whose number is handed to a worker, where there are `workers` and the pipe takes it.
abbrev pub ServedOrClosed : ℕ → ℕ → Bool → Accepted → Type 0
ServedOrClosed fd workers written r =
    ((i : ℕ) × (c : Client) × (r.0.g_client_list i ≡ some c)
      × (c.client_fd ≡ pos fd)
      × (c.type ≡ ConnType.coming)
      × (0 < workers → written ≡ true → (worker : ℕ) × (r.2 ≡ some (worker, i))))
    ⊎ ((r.2 ≡ none) × ((rest : List ℤ) × (r.1.closed ≡ pos fd ∷ rest)))

client_fd_of : Option Client → ℤ → ℤ
client_fd_of none fd = fd
client_fd_of (some c) fd = c.client_fd
