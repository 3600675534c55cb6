-- ===== src/Container/Traverse/Loop.antt =====
-- `traverseContainer` ends, whatever bytes the container gives, and its maps are sound.
use mathlib.Core.Bool.{true≢false}
use mathlib.Core.Option.{none-ne-some}
use inecontainer.Prelude.{
  ap, length, ℕ, zero, suc, ◌+◌, ◌*◌, ◌/◌, ◌≤◌, ◌<◌, ◌≡◌, refl, sym, ◌∙◌, Bool, true, false, Option,
  some, List, replicate, ltb, ◌==◌, Bool-cases, Option-cases, inl, inr, arith,
}
use inecontainer.Prelude.Words.{add64}
use inecontainer.Status.{Status, no_status, to_bool}
use inecontainer.Header.{
  ChunkType, file_header_chunk, stream_start_chunk, stream_data_chunk, fill_chunk, type, chunk_size,
  to_file_index, to_position,
}
use inecontainer.Header.Fields.{chunk_size_range}
use inecontainer.Tracker.Add.{new_free_space_area_lem}
use inecontainer.Directory.{Directory, find, name_eq, is_some}
use inecontainer.Stream.{stream_identifier}
use inecontainer.Chunk.{Device, World, Chunk, load, load_bytes}
use inecontainer.DataChunk.{DataChunk, data_chunk_of}
use inecontainer.StartChunk.{start_chunk_of, virtual_filename}
use inecontainer.Container.{Container, common_header, opened, open_container, finish_open}
use inecontainer.Container.Store.{with_world}
use inecontainer.Container.Traverse.{
  found_start, found_data, found_chunk, load_found, traverse_turn, traverse_loop,
  traverse_container,
}
use inecontainer.Container.Traverse.Sound.{
  IsSound, world-IsSound, add_location-IsSound, new_file-IsNew, take_identity-IsIdentified,
}

module _ {S A : Type 0} (dev : Device S) (received_data : ℕ → List ℕ → A → A × Status)
    (unset : List ℕ) where
  record StartDone (c : Container S) (o : Option (Container S × Status)) : Type 0 where
    c' : Container S
    status : Status
    result : o ≡ some (c', status)
    sound : IsSound c'
    few : length c'.directory.files_by_identifier ≤ length c.directory.files_by_identifier + 1

  found_start-StartDone :
      (position : ℕ) (common : List ℕ) (c : Container S)
      → IsSound c
      → length c.directory.files_by_identifier < 4294967295
      → StartDone c (found_start dev received_data unset position common c)
  unfolding found_start
  found_start-StartDone position common c v small = elim (Bool-cases (to_bool loaded.2)) [
    | inl failed ↦
        rw failed
          (record { c' = c₁; status = loaded.2; result = refl; sound = v₁; few = omega arith })
    | inr read ↦ elim (Bool-cases (is_some (find name_eq name c.directory.files_by_name))) [
      | inl taken ↦
          rw (read, taken)
            (record { c' = c₁; status = _; result = refl; sound = v₁; few = omega arith })
      | inr free ↦
          let n = new_file-IsNew name c₁ v₁ free small in
          let t =
            take_identity-IsIdentified (length c.files) (stream_identifier loaded.0.header)
              loaded.0.file_index n.0 n.2.sound (omega (arith, n.2.longer)) n.2.guessed in
          rw (found_start, read, free, n.1, t.result)
            (record {
              c' = t.c';
              status = no_status;
              result = refl;
              sound = t.sound;
              few = omega (arith, t.few, n.2.few);
            })
    ]
  ]
    where
      loaded : Chunk × World S × Status
      loaded =
          load dev false (start_chunk_of (to_file_index position) (common_header common)) c.world

      name : List ℕ
      name = virtual_filename unset loaded.0.header

      c₁ : Container S
      c₁ = with_world dev loaded.1 c

      v₁ : IsSound c₁
      v₁ = world-IsSound c c₁ refl refl refl v

  found_data-IsSound :
      (build_maps_only : Bool) (position : ℕ) (common : List ℕ) (c : Container S) (a : A)
      → IsSound c
      → IsSound (found_data dev received_data unset build_maps_only position common c a).0
  unfolding found_data
  found_data-IsSound build_maps_only position common c a v = elim (Bool-cases (to_bool loaded.2)) [
    | inl failed ↦ rw failed (world-IsSound c c₁ refl refl refl v)
    | inr read ↦ elim (Option-cases (find ◌==◌ id c.directory.files_by_identifier)) [
      | inl unknown ↦ rw (read, unknown) (world-IsSound c c₁ refl refl refl v)
      | inr (file, known) ↦
          rw (read, known)
            (add_location-IsSound file loaded.0 c₁ (world-IsSound c c₁ refl refl refl v))
    ]
  ]
    where
      loaded : DataChunk × World S × Status
      loaded =
          load_found dev received_data unset build_maps_only
            (data_chunk_of (to_file_index position) (common_header common) (replicate 6 0)) c.world

      id : ℕ
      id = stream_identifier loaded.0.chunk.header

      c₁ : Container S
      c₁ = with_world dev loaded.1 c

  found_data-same :
      (build_maps_only : Bool) (position : ℕ) (common : List ℕ) (c : Container S) (a : A)
      → (found_data dev received_data unset build_maps_only position common c a).0.directory
        ≡ c.directory
  unfolding found_data
  found_data-same build_maps_only position common c a = elim (Bool-cases (to_bool loaded.2)) [
    | inl failed ↦ rw failed refl
    | inr read ↦ elim (Option-cases (find ◌==◌ id c.directory.files_by_identifier)) [
      | inl unknown ↦ rw (read, unknown) refl
      | inr (file, known) ↦ rw (read, known) refl
    ]
  ]
    where
      loaded : DataChunk × World S × Status
      loaded =
          load_found dev received_data unset build_maps_only
            (data_chunk_of (to_file_index position) (common_header common) (replicate 6 0)) c.world

      id : ℕ
      id = stream_identifier loaded.0.chunk.header

  record ChunkDone (c : Container S) (o : Option (Container S × A × Status)) : Type 0 where
    c' : Container S
    a' : A
    status : Status
    result : o ≡ some (c', a', status)
    sound : IsSound c'
    few : length c'.directory.files_by_identifier ≤ length c.directory.files_by_identifier + 1

  found_chunk-ChunkDone :
      (build_maps_only : Bool) (t : ChunkType) (position : ℕ) (common : List ℕ) (c : Container S)
      (a : A)
      → IsSound c
      → position < 137438949376
      → length c.directory.files_by_identifier < 4294967295
      → ChunkDone c (found_chunk dev received_data unset build_maps_only t position common c a)
  unfolding found_chunk
  found_chunk-ChunkDone build_maps_only fill_chunk position common c a v small few = record {
    c' = _;
    a' = a;
    status = no_status;
    result = refl;
    sound = record {
      well_formed =
          (new_free_space_area_lem (to_file_index position)
            (to_file_index (chunk_size (common_header common))) false c.free_map v.well_formed
            (unfold to_file_index in omega (arith, chunk_size_range (common_header common)))).0;
      in_step = v.in_step;
      registered = v.registered;
    };
    few = omega arith;
  }
  found_chunk-ChunkDone build_maps_only stream_start_chunk position common c a v small few =
      let d = found_start-StartDone position common c v few in
      rw (found_chunk, d.result)
        (record {
          c' = d.c';
          a' = a;
          status = d.status;
          result = refl;
          sound = d.sound;
          few = d.few;
        })
  found_chunk-ChunkDone build_maps_only stream_data_chunk position common c a v small few = record {
    c' = _;
    a' = _;
    status = _;
    result = refl;
    sound = found_data-IsSound build_maps_only position common c a v;
    few = omega (
      arith,
      ap (λ (d : Directory). length d.files_by_identifier)
          (found_data-same build_maps_only position common c a),
    );
  }
  found_chunk-ChunkDone build_maps_only file_header_chunk position common c a v small few = record {
    c' = c;
    a' = a;
    status = _;
    result = refl;
    sound = v;
    few = omega arith;
  }

  record TurnDone (c : Container S) (o : Option (Container S × A × Status × ℕ)) : Type 0 where
    c' : Container S
    a' : A
    status : Status
    size : ℕ
    result : o ≡ some (c', a', status, size)
    sound : IsSound c'
    few : length c'.directory.files_by_identifier ≤ length c.directory.files_by_identifier + 1
    further : to_bool status ≡ false → (32 ≤ size) × (size ≤ 4096)

  traverse_turn-TurnDone :
      (build_maps_only : Bool) (position : ℕ) (c : Container S) (a : A)
      → IsSound c
      → position < 137438949376
      → length c.directory.files_by_identifier < 4294967295
      → TurnDone c (traverse_turn dev received_data unset build_maps_only position c a)
  unfolding traverse_turn
  traverse_turn-TurnDone build_maps_only position c a v small few =
      elim (Bool-cases (to_bool read.2)) [
        | inl failed ↦ rw failed (record {
          c' = c₁;
          a' = a;
          status = read.2;
          size = 0;
          result = refl;
          sound = v₁;
          few = omega arith;
          further = λ e. absurd (true≢false (sym failed ∙ e));
        })
        | inr fine ↦
            let h = common_header read.1 in
            let d =
              found_chunk-ChunkDone build_maps_only (type h) position read.1 c₁ a v₁ small few in
            rw (fine, d.result)
              (record {
                c' = d.c';
                a' = d.a';
                status = d.status;
                size = chunk_size h;
                result = refl;
                sound = d.sound;
                few = d.few;
                further = λ e. chunk_size_range h;
              })
      ]
    where
      read : World S × List ℕ × Status
      read = load_bytes dev position 4 c.world

      c₁ : Container S
      c₁ = with_world dev read.0 c

      v₁ : IsSound c₁
      v₁ = world-IsSound c c₁ refl refl refl v

  -- What a traversal ends with.
  pub record Traversed (o : Option (Container S × A × Status)) : Type 0 where
    pub c' : Container S
    pub a' : A
    pub status : Status
    pub result : o ≡ some (c', a', status)
    pub sound : IsSound c'

  traverse_loop-Traversed :
      (build_maps_only : Bool) (fuel file_size position : ℕ) (c : Container S) (a : A)
      → IsSound c
      → 1 ≤ fuel
      → file_size + 32 ≤ position + 32 * fuel
      → file_size ≤ 137438949376
      → 32 * length c.directory.files_by_identifier + file_size ≤ position + 137438953408
      → Traversed
          (traverse_loop dev received_data unset build_maps_only fuel file_size position c a)
  unfolding traverse_loop
  traverse_loop-Traversed build_maps_only zero file_size position c a v some_fuel enough small few =
      absurd (omega arith)
  traverse_loop-Traversed build_maps_only (suc fuel) file_size position c a v some_fuel enough small
        few =
      elim (Bool-cases (ltb position file_size)) [
        | inr ended ↦
            rw (traverse_loop, ended)
              (record { c' = c; a' = a; status = no_status; result = refl; sound = v })
        | inl more ↦
            let t =
              traverse_turn-TurnDone build_maps_only position c a v (ground (arith, more))
                (ground (arith, more, few)) in
            elim (Bool-cases (to_bool t.status)) [
              | inl failed ↦
                  rw (traverse_loop, more, t.result, failed)
                    (record {
                      c' = t.c';
                      a' = t.a';
                      status = t.status;
                      result = refl;
                      sound = t.sound;
                    })
              | inr fine ↦
                  let next : add64 position t.size ≡ position + t.size =
                    ground (arith, more, t.further fine) in
                  rw (traverse_loop, more, t.result, fine)
                    (traverse_loop-Traversed build_maps_only fuel file_size (add64 position t.size)
                      t.c' t.a' t.sound (ground (arith, more, enough))
                      (omega (arith, next, t.further fine)) small
                      (omega (arith, next, t.further fine, t.few, few)))
            ]
      ]

  -- For a container whose reads and writes succeed with their counts alone, with sound maps, whose
  -- size() is at most 2^37 - 4096 bytes and, with 32 bytes for every identifier in use, at most 2^37
  -- - 64: whatever else it answers, traverseContainer ends within its fuel, reads no null pointer,
  -- meets none of its assertions or of those that it calls in making a file, and leaves sound maps,
  -- whether its status is an error or not. Sound: the free regions are in order and apart, a name has
  -- an API object exactly when it has an implementation, and the file that is found by an identifier
  -- has that identifier.
  pub traverse_container_lem :
      (build_maps_only : Bool) (c : Container S) (a : A)
      → IsSound c
      → dev.size c.world.device ≤ 137438949376
      → 32 * length c.directory.files_by_identifier + dev.size c.world.device ≤ 137438953408
      → Traversed (traverse_container dev received_data unset build_maps_only c a)
  unfolding traverse_container
  traverse_container_lem build_maps_only c a v small few =
      traverse_loop-Traversed build_maps_only (dev.size c.world.device / 32 + 2)
        (dev.size c.world.device) (to_position c.starting_file_index)
        (record c { file_maps_populated = true }) a (world-IsSound c _ refl refl refl v)
        (omega arith) (omega arith) small (omega arith)

module _ {S : Type 0} (dev : Device S) where
  finish_open-IsSound : (p : Container S × Status) → IsSound (finish_open dev p).0
  unfolding finish_open find
  finish_open-IsSound p = record {
    well_formed = tt;
    in_step = λ n. refl;
    registered = λ id file e. absurd (none-ne-some file e);
  }

  -- `open` leaves sound maps, whatever the container answers.
  pub open_container-IsSound : (c : Container S) → IsSound (open_container dev c).0
  unfolding open_container
  open_container-IsSound c = finish_open-IsSound (opened dev c)
