-- ===== src/ProbeGateway/Pull.antt =====
-- The frames of the nodes that a round probed: a pull wins it, and it is over when all declined.
use strij.Base.{
  ℕ, ◌≡◌, refl, String, true, List, [], ◌∷◌, ◌++◌, none, some, lookup, erase, has_id, lookup-insert,
  lookup-erase, contains-lookup, append_assoc, eq_refl,
}
use strij.Tlv.{Frame, task_pull}
use strij.ResultStorage.{Storage, get, put, emplace}
use strij.ProbeGateway.{
  Codec, Connection, Target, Message, grant, cancel, PendingProbe, ProbeScheduler, frame_ok,
  to_connection, others, grant_to, handle_pull, handle_frame, write_on,
}
use strij.ProbeGateway.Sweep.{Connected, cancels_of, send_cancels-sent}

put-get :
    (storage : Storage) (id node_id : String) (receiver : ℕ)
    → get storage id ≡ none
    → get (put storage id receiver node_id) id ≡ some receiver
unfolding put emplace
put-get storage id node_id receiver e =
    rw (contains-lookup id storage.receivers, e)
      (rw (lookup-insert id id receiver storage.receivers, eq_refl id) refl)

module _ (codec : Codec) (s : ProbeScheduler) (id winner : String) (p : PendingProbe)
    (conn : Connection) (pull : Frame) (is_pull : pull.type_id ≡ task_pull)
    (parsed : codec.parse_pull pull.value ≡ some id) (opened : lookup id s.pending ≡ some p)
    (owned : conn.owner ≡ some winner) (probed : has_id winner p.probed_node_ids ≡ true)
    (connected : Connected s.directory (others winner p.probed_node_ids))
    (new : get s.storage id ≡ none) where
  abbrev pub won : ProbeScheduler
  won = record s {
    storage = put s.storage id p.receiver winner;
    pending = erase id s.pending;
    sent =
        s.sent
        ++ (to_connection conn.number, grant p.task)
          ∷ cancels_of s.directory id (others winner p.probed_node_ids);
  }

  grant_to-won : grant_to s conn id p winner ≡ some won
  unfolding grant_to
  grant_to-won =
      let losers = others winner p.probed_node_ids in
      let granted : List (Target × Message) = (to_connection conn.number, grant p.task) ∷ [] in
      rw
        (
          grant_to,
          send_cancels-sent s.directory id losers (s.sent ++ granted) connected,
          append_assoc s.sent granted (cancels_of s.directory id losers),
        )
        refl

  -- If the other probed nodes in the directory have their connections and the task has no receiver in
  -- the storage, the first pull of a probed node gets the task, every other probed node of the
  -- directory gets a cancel, and the receiver waits in the storage for the results. A later pull for
  -- the task, from whatever connection, gets a cancel and nothing else.
  pub pull-wins :
      (s' : ProbeScheduler) × (handle_frame codec s pull conn ≡ some (s', frame_ok))
      × (s'.sent
          ≡ s.sent
            ++ (to_connection conn.number, grant p.task)
              ∷ cancels_of s.directory id (others winner p.probed_node_ids))
      × (get s'.storage id ≡ some p.receiver)
      × ((later : Connection)
          → handle_frame codec s' pull later ≡ some (write_on s' later (cancel id), frame_ok))
  unfolding handle_frame handle_pull
  pull-wins = (
    won,
    rw (handle_frame, is_pull, parsed, opened, handle_pull, owned, probed, grant_to-won) refl,
    refl,
    put-get s.storage id winner p.receiver new,
    λ later. rw (handle_frame, is_pull, parsed, lookup-erase id id s.pending, eq_refl id) refl,
  )
