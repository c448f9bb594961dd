-- ===== src/Tests/Recording.antt =====
-- A persistence whose world lists what was committed.
use chain_watch.Prelude.{◌≡◌, refl, sym, ap, none, List, [], ◌∷◌, ◌++◌}
use chain_watch.Errors.{GoError, ok, err}
use chain_watch.Domain.{BlockTransferIndex, ObservedBlock}
use chain_watch.Indexer.{TransferBlockClient, BlockPersistence}
use chain_watch.Indexer.History.{AnswersNumbers, Commits}
use chain_watch.Tests.Node.{block_of, index_of}

abbrev pub Log : Type 0
Log = List BlockTransferIndex

abbrev pub log_node : TransferBlockClient Log
log_node = record {
  get_observed_block_by_number = λ n w. (ok (block_of n), w);
  get_erc20_transfers_by_block = λ block w. (ok (index_of block), w);
}

abbrev pub log_persistence : BlockPersistence Log
log_persistence = record {
  load = λ w. (ok none, w);
  save_indexed_block = λ index w. (ok tt, w ++ index ∷ []);
}

pub log_save :
    (index : BlockTransferIndex) (w : Log) (x : GoError)
    → (log_persistence.save_indexed_block index w).0 ≡ err x
    → (log_persistence.save_indexed_block index w).1 ≡ w
log_save index w x e = cc

abbrev pub log_commits : Commits log_node log_persistence
log_commits = record {
  history = λ w. w;
  history_get_block = λ n w. refl;
  history_get_transfers = λ block w. refl;
  history_load = λ w. refl;
  history_save_ok = λ index w e. refl;
  history_save_err = log_save;
}

same_ok : {A : Type 0} (a b : A) → ok a ≡ ok b → a ≡ b
same_ok a b e = cc

pub log_node-AnswersNumbers : AnswersNumbers log_node
log_node-AnswersNumbers = record {
  number_of_block = λ n w block e. ap (λ (b : ObservedBlock). b.number) (sym (same_ok _ block e));
  number_of_index =
      λ block w index e. ap (λ (i : BlockTransferIndex). i.block_number) (sym (same_ok _ index e));
}
