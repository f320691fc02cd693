-- ===== src/Querying/Reference.antt =====
-- No call of the client changes the reference to the table of a query's rows.
use gluamysql.Base.{ℕ, ◌≡◌, refl, not, if_elim, Option}
use gluamysql.Host.{Host}
use gluamysql.Action.{Query, Stage, at_query, at_fetch, at_free}
use gluamysql.Database.{Channel, check_status}
use gluamysql.Querying.{advance, store_stage, store_out}

module _ {C N : Type 0} (h : Host C N) where
  store_out-data_reference :
      (st : Stage) (v : Option ℕ) (q : Query) → (store_out st v q).data_reference ≡ q.data_reference
  unfolding store_out
  store_out-data_reference at_query v q = refl
  store_out-data_reference at_fetch v q = refl
  store_out-data_reference at_free v q = refl

  pub advance-data_reference :
      (q : Query) (ch : Channel C) → (advance h q ch).0.data_reference ≡ q.data_reference
  unfolding advance store_stage
  advance-data_reference q ch =
      if_elim (λ (x : Query × Channel C). x.0.data_reference ≡ q.data_reference) (not q.started)
        (λ _. store_out-data_reference q.stage _ _)
        (λ _.
          if_elim (λ (x : Query × Channel C). x.0.data_reference ≡ q.data_reference)
            (check_status h ch).0 (λ _. store_out-data_reference q.stage _ q) (λ _. refl))
