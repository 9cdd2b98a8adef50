-- ===== src/RealtimeIngest/Delivery.antt =====
-- The consumer of market_pipeline_lib/realtime_ingest.py over the realtime ingestor itself.
use idea2strategy_data_pipel.Prelude.Result.{Result}
use idea2strategy_data_pipel.Contracts.Shard.{Hashing}
use idea2strategy_data_pipel.RealtimeIngest.Fault.{Platform}
use idea2strategy_data_pipel.RealtimeIngest.Ingestor.{RealtimeIngestor}
use idea2strategy_data_pipel.RealtimeIngest.Commit.{submit_batch}
use idea2strategy_data_pipel.RealtimeIngest.Consumer.{IngestorPort}

module _ {X R F D : Type 0} (platform : Platform F D) (hashing : Hashing)
    (flush : RealtimeIngestor F → Result X R × RealtimeIngestor F) where
  -- The ingestor as the consumer sees it; the publication is a parameter.
  abbrev pub realtime_port : IngestorPort (RealtimeIngestor F) X R F D
  realtime_port = record { submit_batch = submit_batch platform hashing; flush = flush }
